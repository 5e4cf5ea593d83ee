-- ===== src/Resp/Tracks.antt =====
-- What one item reads is the same with more bytes behind it, unless there were too few.
use native.Mathlib.Nat.{add-zero}
use coredis.Prelude.{
  ℕ, zero, suc, ◌+◌, ◌-◌, ◌≤◌, ◌≡◌, ◌||◌, refl, ap, ◌∙◌, Bool, true, false, Option, none, some,
  List, [], ◌∷◌, ◌++◌, ◌==◌, arith, length, length-take, Bool-cases, inl, inr, drop, take,
  if◌then◌else◌, ltb, ◌&&◌, drop-add, drop-ge,
}
use coredis.Prelude.Int.{ℤ, pos, negsuc}
use coredis.Prelude.Partial.{◌>>=◌}
use coredis.Resp.Value.{Value, null, same_codes}
use coredis.Resp.Number.{parse_int}
use coredis.Resp.Errors.{codes, parse_error}
use coredis.Resp.Nodes.{Node}
use coredis.Resp.Parser.{
  Parser, Runtime, Read, item, opened, short, fault, Exception, invalid_response, try_decode,
  payload, read_bulk, read_negative, move_back, bulk, aggregate, number, double, boolean,
  error_item, read_item, push_node,
}
use coredis.Resp.InStep.{in_step}
use coredis.Resp.Lines.{Ready, advance}
use coredis.Resp.Settle.{with_nodes}
use coredis.Resp.Extend.{extend, drop-append_le}

-- `q` is `base` further on by at most `room` bytes, with other nodes.
abbrev pub Onward : Parser → ℕ → Parser → Type 0
Onward base room q = (n : ℕ) × (n ≤ room) × (q ≡ with_nodes q.nodes (advance n base))

-- All of the buffer is taken.
abbrev pub Spent : Parser → Type 0
Spent q = drop q.localbuffer.position q.localbuffer.contents ≡ []

-- What a bulk length below -2 leaves.
abbrev pub Below : Parser → Type 0
Below q = (in_step q ≡ false) × Spent q

-- A reading that does not end for lack of bytes ends the same way with more behind it, unless
-- it takes all that is there.
pub data Tracks (d : List ℕ) (base : Parser) (room : ℕ) : Read → Read → Type 0 where
  on_item :
      (v : Value) (q : Parser)
      → Onward base room q
      → Tracks d base room (item v q) (item v (extend d q))
  on_opened :
      (q : Parser) → Onward base room q → Tracks d base room (opened q) (opened (extend d q))
  on_short : (q : Parser) (r : Read) → Tracks d base room (short q) r
  on_fault : (e : Exception) (q : Parser) → Tracks d base room (fault e q) (fault e (extend d q))
  on_below : (v : Value) (q : Parser) (r : Read) → Below q → Tracks d base room (item v q) r
  on_below_fault :
      (e : Exception) (q : Parser) (r : Read) → Below q → Tracks d base room (fault e q) r

here : (base : Parser) (room : ℕ) (nodes : List Node) → Onward base room (with_nodes nodes base)
here base room nodes =
    (0, omega arith, cc (add-zero base.localbuffer.position, add-zero base.bytes_read))

take-append_le : (n : ℕ) (xs ys : List ℕ) → n ≤ length xs → take n (xs ++ ys) ≡ take n xs
take-append_le zero xs ys h = refl
take-append_le (suc n) [] ys h = absurd (omega arith)
take-append_le (suc n) (x ∷ xs) ys h = rw (take-append_le n xs ys (omega arith))

-- What is there is read alike with more behind it.
pub same_piece :
    (d : List ℕ) (p : Parser) (u : List ℕ) (n : ℕ)
    → Ready p u
    → n ≤ length u
    → (take n (drop p.localbuffer.position (p.localbuffer.contents ++ d))
        ≡ take n (drop p.localbuffer.position p.localbuffer.contents))
      × (length (take n (drop p.localbuffer.position p.localbuffer.contents)) ≡ n)
same_piece d p u n r h =
    let inside =
      drop-append_le p.localbuffer.position p.localbuffer.contents d
        (omega (arith, r.synced, r.counted, r.whole)) in
    (
      ap (take n) inside ∙ rw r.ahead (take-append_le n u d h),
      rw r.ahead (length-take n u ∙ omega arith),
    )

module _ (d : List ℕ) (base : Parser) (room : ℕ) where
  Tracks-if :
      (b : Bool) {x x' y y' : Read}
      → Tracks d base room x x'
      → Tracks d base room y y'
      → Tracks d base room (if b then x else y) (if b then x' else y')
  Tracks-if true t u = t
  Tracks-if false t u = u

  item_here : (v : Value) → Tracks d base room (item v base) (item v (extend d base))
  item_here v = on_item v base (here base room base.nodes)

  Tracks-number : (z : Option ℤ) → Tracks d base room (number z base) (number z (extend d base))
  unfolding number
  Tracks-number none = on_fault _ base
  Tracks-number (some z) = item_here _

  Tracks-double : (f : Option ℕ) → Tracks d base room (double f base) (double f (extend d base))
  unfolding double
  Tracks-double none = on_fault _ base
  Tracks-double (some f) = item_here _

  Tracks-boolean :
      (chunk : List ℕ) → Tracks d base room (boolean chunk base) (boolean chunk (extend d base))
  unfolding boolean
  Tracks-boolean [] = on_fault _ base
  Tracks-boolean (c ∷ chunk) = item_here _

  Tracks-error_item :
      (v : Option Value) → Tracks d base room (error_item v base) (error_item v (extend d base))
  unfolding error_item
  Tracks-error_item none = on_fault _ base
  Tracks-error_item (some v) = item_here v

  Tracks-aggregate :
      (m : ℕ) (z : Option ℤ)
      → Tracks d base room (aggregate m z base) (aggregate m z (extend d base))
  unfolding aggregate push_node
  Tracks-aggregate m none = on_fault _ base
  Tracks-aggregate m (some (negsuc n)) = item_here null
  Tracks-aggregate m (some (pos zero)) = on_item null (push_node m 0 base) (here base room _)
  Tracks-aggregate m (some (pos (suc n))) = on_opened (push_node m (suc n) base) (here base room _)

  either_way :
      (b : Bool) (x y r : Read)
      → Tracks d base room x r
      → Tracks d base room y r
      → Tracks d base room (if b then x else y) r
  either_way true x y r t u = t
  either_way false x y r t u = u

-- A position does not move back with `bytes_read`.
moved_back :
    (place more read n below : ℕ)
    → place ≡ read
    → ((place + more == read - suc n) && (below + (suc n - read) == 0)) ≡ false
moved_back place more read n below same = ground arith

module _ (py : Runtime) (decode_bytes : Bool) (encoding : Option (List ℕ)) where
  Tracks-payload :
      (d : List ℕ) (base : Parser) (room m : ℕ) (raw : List ℕ) (q : Parser)
      → Onward base room q
      → Tracks d base room
          (payload py decode_bytes encoding m raw q)
          (payload py decode_bytes encoding m raw (extend d q))
  unfolding payload
  Tracks-payload d base room m raw q o =
      Tracks-if d base room (m == b'=') (Tracks-if d base room _ (on_item _ q o) (on_fault _ q))
        (on_item _ q o)

  Tracks-read_bulk :
      (d : List ℕ) (base : Parser) (u : List ℕ) (m size n : ℕ)
      → Ready base u
      → Tracks d base
          (length u)
          (read_bulk py decode_bytes encoding m size n base)
          (read_bulk py decode_bytes encoding m size n (extend d base))
  unfolding read_bulk
  Tracks-read_bulk d base u m size n r =
      elim (Bool-cases (ltb (base.bytes_written - base.bytes_read) (size + 2))) [
        | inl e ↦ rw e (on_short _ _)
        | inr e ↦
            let enough : size + 2 ≤ length u = ground (arith, r.counted) in
            let e' : ltb (base.bytes_written + length d - base.bytes_read) (size + 2) ≡ false =
              ground (arith, r.counted) in
            let (same, long) = same_piece d base u (size + 2) r enough in
            rw (e, e', same, long)
              (Tracks-payload d base (length u) m _
                (record base {
                  localbuffer = record base.localbuffer {
                    position = base.localbuffer.position + (size + 2);
                  };
                  bytes_read = base.bytes_read + (size + 2);
                })
                (size + 2, enough, refl))
      ]

  payload-Below :
      (d : List ℕ) (base : Parser) (room m : ℕ) (raw : List ℕ) (q : Parser) (r : Read)
      → Below q
      → Tracks d base room (payload py decode_bytes encoding m raw q) r
  unfolding payload
  payload-Below d base room m raw q r b =
      either_way d base room (m == b'=') _ _ r
        (either_way d base room (same_codes (take 3 raw) (codes "txt")) _ _ r (on_below _ q r b)
          (on_below_fault _ q r b))
        (on_below _ q r b)

  Tracks-read_negative :
      (d : List ℕ) (base : Parser) (u : List ℕ) (m n : ℕ)
      → Ready base u
      → (r : Read)
      → Tracks d base (length u) (read_negative py decode_bytes encoding m (suc n) base) r
  unfolding read_negative move_back in_step
  Tracks-read_negative d base u m n ready r =
      let place = base.localbuffer.position in
      let rest = drop place base.localbuffer.contents in
      let behind : ((place + length rest == base.bytes_read - suc n)
            && (base.below_zero + (suc n - base.bytes_read) == 0))
          ≡ false =
        moved_back place (length rest) base.bytes_read n base.below_zero ready.synced in
      payload-Below d base (length u) m _ _ r (
        behind,
        drop-add place (length rest) base.localbuffer.contents
            ∙ drop-ge (length rest) rest (omega arith),
      )

  Tracks-bulk :
      (d : List ℕ) (base : Parser) (u : List ℕ) (m : ℕ) (z : Option ℤ) (n : ℕ)
      → Ready base u
      → Tracks d base
          (length u)
          (bulk py decode_bytes encoding m z n base)
          (bulk py decode_bytes encoding m z n (extend d base))
  unfolding bulk
  Tracks-bulk d base u m none n r = on_fault _ base
  Tracks-bulk d base u m (some (negsuc zero)) n r = item_here d base (length u) null
  Tracks-bulk d base u m (some (negsuc (suc zero))) n r =
      Tracks-payload d base (length u) m [] base (here base (length u) base.nodes)
  Tracks-bulk d base u m (some (negsuc (suc (suc k)))) n r = Tracks-read_negative d base u m k r _
  Tracks-bulk d base u m (some (pos size)) n r = Tracks-read_bulk d base u m size n r

  pub Tracks-read_item :
      (d : List ℕ) (base : Parser) (u : List ℕ) (m : ℕ) (chunk : List ℕ) (n : ℕ)
      → Ready base u
      → Tracks d base
          (length u)
          (read_item py decode_bytes encoding m chunk n base)
          (read_item py decode_bytes encoding m chunk n (extend d base))
  unfolding read_item
  Tracks-read_item d base u m chunk n r =
      let room = length u in
      let z = parse_int chunk in
      Tracks-if d base room (m == b'+')
        (item_here d base room (try_decode py decode_bytes encoding chunk))
        (Tracks-if d base room (m == b'$' || m == b'=') (Tracks-bulk d base u m z n r) (
          Tracks-if d base room (m == b':' || m == b'(') (Tracks-number d base room z) (
            Tracks-if d base room (m == b',') (Tracks-double d base room (py.to_float chunk)) (
              Tracks-if d base room (m == b'_') (item_here d base room null) (
                Tracks-if d base room (m == b'#') (Tracks-boolean d base room chunk) (
                  Tracks-if d base room (m == b'*' || (m == b'>' || (m == b'%' || m == b'~')))
                    (Tracks-aggregate d base room m z)
                    (Tracks-if d base room (m == b'-')
                      (Tracks-error_item d base room
                        (py.decode (codes "utf-8") chunk >>= λ text. parse_error text))
                      (on_fault invalid_response base))))))))

-- ===== src/Resp/Waits.antt =====
-- What a call of `parse` that finds too little has changed: the position in the buffer only.
use coredis.Prelude.{
  ℕ, zero, suc, ◌+◌, ◌-◌, ◌≡◌, ◌||◌, ap, ◌∙◌, Bool, true, false, Option, none, some, List, [], ◌∷◌,
  ◌==◌, arith, length, Bool-cases, inl, inr, drop, if◌then◌else◌, ltb, get_or,
}
use coredis.Prelude.Int.{ℤ, pos, negsuc}
use coredis.Prelude.Partial.{◌>>=◌}
use coredis.Resp.Value.{Value, null}
use coredis.Resp.Number.{parse_int}
use coredis.Resp.Errors.{codes, parse_error}
use coredis.Resp.Nodes.{Node, append, close_nodes}
use coredis.Resp.Buffer.{first_line}
use coredis.Resp.Parser.{
  Parser, Runtime, Read, item, opened, short, fault, Exception, invalid_response, Step, waits,
  payload, read_bulk, read_negative, bulk, aggregate, push_node, try_decode, number, double,
  boolean, error_item, read_item, finish, settle, after_read, ends_crlf, body, pass, feed,
}
use coredis.Resp.Lines.{Ready, advance}
use coredis.Resp.Extend.{extend, feed-eq-extend}

-- Too little data gives back the `n` bytes of the line.
data GivesBack (base : Parser) (n : ℕ) : Read → Type 0 where
  with_short : GivesBack base n (short (record base { bytes_read = base.bytes_read - n }))
  with_item : (v : Value) (q : Parser) → GivesBack base n (item v q)
  with_opened : (q : Parser) → GivesBack base n (opened q)
  with_fault : (e : Exception) (q : Parser) → GivesBack base n (fault e q)

abbrev GoesOn : Step → Type 0
GoesOn (waits q) = ⊥
GoesOn _ = Unit {0}

if_GoesOn : (b : Bool) (s t : Step) → GoesOn s → GoesOn t → GoesOn (if b then s else t)
if_GoesOn true s t h k = h
if_GoesOn false s t h k = k

finish-GoesOn : (m : ℕ) (v : Value) (nodes : List Node) (q : Parser) → GoesOn (finish m v nodes q)
unfolding finish
finish-GoesOn m v [] q = tt
finish-GoesOn m v (top ∷ []) q = if_GoesOn (top.depth == 0) _ _ tt tt
finish-GoesOn m v (top ∷ below ∷ rest) q = tt

settle-GoesOn : (m : ℕ) (v : Value) (nodes : List Node) (q : Parser) → GoesOn (settle m v nodes q)
unfolding settle
settle-GoesOn m v [] q = finish-GoesOn m v [] q
settle-GoesOn m v (top ∷ rest) q =
    if_GoesOn (ltb 0 top.depth) _ _
      (if_GoesOn (ltb 1 (append top v).depth) _ _ tt
        (finish-GoesOn m v (close_nodes (append top v) rest) q))
      (finish-GoesOn m v (close_nodes top rest) q)

module _ (base : Parser) (n : ℕ) where
  if_GivesBack :
      (b : Bool) {r s : Read}
      → GivesBack base n r
      → GivesBack base n s
      → GivesBack base n (if b then r else s)
  if_GivesBack true h k = h
  if_GivesBack false h k = k

  number-GivesBack : (z : Option ℤ) → GivesBack base n (number z base)
  unfolding number
  number-GivesBack none = with_fault _ _
  number-GivesBack (some z) = with_item _ _

  double-GivesBack : (f : Option ℕ) → GivesBack base n (double f base)
  unfolding double
  double-GivesBack none = with_fault _ _
  double-GivesBack (some f) = with_item _ _

  boolean-GivesBack : (chunk : List ℕ) → GivesBack base n (boolean chunk base)
  unfolding boolean
  boolean-GivesBack [] = with_fault _ _
  boolean-GivesBack (c ∷ chunk) = with_item _ _

  error_item-GivesBack : (v : Option Value) → GivesBack base n (error_item v base)
  unfolding error_item
  error_item-GivesBack none = with_fault _ _
  error_item-GivesBack (some v) = with_item _ _

  aggregate-GivesBack : (m : ℕ) (z : Option ℤ) → GivesBack base n (aggregate m z base)
  unfolding aggregate push_node
  aggregate-GivesBack m none = with_fault _ _
  aggregate-GivesBack m (some (negsuc k)) = with_item _ _
  aggregate-GivesBack m (some (pos zero)) = with_item _ _
  aggregate-GivesBack m (some (pos (suc k))) = with_opened _

module _ (py : Runtime) (decode_bytes : Bool) (encoding : Option (List ℕ)) where
  payload-GivesBack :
      (base : Parser) (n m : ℕ) (raw : List ℕ) (q : Parser)
      → GivesBack base n (payload py decode_bytes encoding m raw q)
  unfolding payload
  payload-GivesBack base n m raw q =
      if_GivesBack base n (m == b'=') (if_GivesBack base n _ (with_item _ q) (with_fault _ q))
        (with_item _ q)

  bulk-GivesBack :
      (base : Parser) (n m : ℕ) (z : Option ℤ)
      → GivesBack base n (bulk py decode_bytes encoding m z n base)
  unfolding bulk read_bulk read_negative
  bulk-GivesBack base n m none = with_fault _ _
  bulk-GivesBack base n m (some (negsuc zero)) = with_item _ _
  bulk-GivesBack base n m (some (negsuc (suc zero))) = payload-GivesBack base n m [] base
  bulk-GivesBack base n m (some (negsuc (suc (suc k)))) = payload-GivesBack base n m _ _
  bulk-GivesBack base n m (some (pos size)) =
      if_GivesBack base n (ltb (base.bytes_written - base.bytes_read) (size + 2)) with_short
        (payload-GivesBack base n m _ _)

  read_item-GivesBack :
      (base : Parser) (n m : ℕ) (chunk : List ℕ)
      → GivesBack base n (read_item py decode_bytes encoding m chunk n base)
  unfolding read_item
  read_item-GivesBack base n m chunk =
      let z = parse_int chunk in
      if_GivesBack base n (m == b'+') (with_item (try_decode py decode_bytes encoding chunk) base) (
        if_GivesBack base n (m == b'$' || m == b'=') (bulk-GivesBack base n m z) (
          if_GivesBack base n (m == b':' || m == b'(') (number-GivesBack base n z) (
            if_GivesBack base n (m == b',') (double-GivesBack base n (py.to_float chunk)) (
              if_GivesBack base n (m == b'_') (with_item null base) (
                if_GivesBack base n (m == b'#') (boolean-GivesBack base n chunk) (
                  if_GivesBack base n (m == b'*' || (m == b'>' || (m == b'%' || m == b'~')))
                    (aggregate-GivesBack base n m z)
                    (if_GivesBack base n (m == b'-')
                      (error_item-GivesBack base n
                        (py.decode (codes "utf-8") chunk >>= λ text. parse_error text))
                      (with_fault invalid_response base))))))))

after_read-waits :
    (base : Parser) (n m : ℕ) (r : Read) (q : Parser)
    → GivesBack base n r
    → after_read m r ≡ waits q
    → q ≡ record base { bytes_read = base.bytes_read - n }
unfolding after_read
after_read-waits base n m r q (with_item v p) e =
    let stays : ⊥ = rw e at (settle-GoesOn m v p.nodes p) in absurd stays
after_read-waits base n m r q (with_opened p) e = cc
after_read-waits base n m r q (with_fault x p) e = cc
after_read-waits base n m r q with_short e = ground arith

module _ (py : Runtime) (decode_bytes : Bool) (encoding : Option (List ℕ)) where
  -- What is fed to a parser that waits is read behind what it has not read.
  pub feed-waits :
      (p q : Parser) (u d : List ℕ)
      → Ready p u
      → pass py decode_bytes encoding p ≡ waits q
      → feed d q ≡ extend d p
  unfolding pass
  feed-waits p q u d r h =
      let line = first_line (drop p.localbuffer.position p.localbuffer.contents) in
      let width = length line in
      let base = advance width p in
      let stays : (record q { localbuffer = record q.localbuffer { position = q.bytes_read } } ≡ p)
          × (q.bytes_written ≡ length q.localbuffer.contents)
          × (q.below_zero ≡ 0) =
        elim (Bool-cases (ends_crlf line)) [
          | inl e ↦
              let same =
                after_read-waits base width (get_or line 0 0) _ q
                  (read_item-GivesBack py decode_bytes encoding base width (get_or line 0 0)
                    (body line))
                  (rw e at h) in
              let back : p.bytes_read + width - width ≡ p.bytes_read = omega arith in
              rw (same, back) (cc (r.synced), r.whole, r.not_below)
          | inr e ↦
              let same : record p {
                localbuffer = record p.localbuffer { position = p.localbuffer.position + width };
              }
                  ≡ q =
                ground (arith, e) in
              rw (← same) (cc (r.synced), r.whole, r.not_below)
        ] in
      feed-eq-extend d q stays.1 stays.2 ∙ ap (extend d) stays.0

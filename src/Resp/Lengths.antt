-- ===== src/Resp/Lengths.antt =====
-- That a call of `parse` which meets no bulk length below -2 keeps `bytes_read` at the position of its buffer.
use coredis.Prelude.{
  ℕ, zero, suc, ◌+◌, ◌-◌, ◌≡◌, refl, ◌∙◌, Bool, true, false, not, ◌&&◌, ◌||◌, Option, none, some,
  List, [], ◌∷◌, ◌==◌, arith, length, Bool-cases, inl, inr, drop, if◌then◌else◌, ltb, get_or,
}
use coredis.Prelude.Int.{ℤ, pos, negsuc}
use coredis.Prelude.Partial.{◌>>=◌}
use coredis.Resp.Value.{Value, null}
use coredis.Resp.Number.{parse_int}
use coredis.Resp.Errors.{codes, parse_error}
use coredis.Resp.Buffer.{first_line}
use coredis.Resp.Parser.{
  Parser, Runtime, Exception, invalid_response, Read, item, opened, short, fault, Step, waits,
  continues, breaks, raises, payload, read_bulk, bulk, aggregate, push_node, number, double,
  boolean, error_item, read_item, after_read, ends_crlf, body, pass, try_decode,
}
use coredis.Resp.Lines.{Ready, advance}
use coredis.Resp.Tracks.{same_piece}
use coredis.Resp.InStep.{in_step, in_steps, in_step_after, in_step_loop, stays_in_step}
use coredis.Resp.Chunks.{settle-in_step, Ready-next, Ready-onward}
use coredis.Resp.Extend.{length-first_line-le}

unfoldable pub is_below : Option ℤ → Bool
is_below (some (negsuc (suc (suc n)))) = true
is_below _ = false

-- Whether the next line has a bulk or verbatim length below -2.
unfoldable pub reads_below : Parser → Bool
unfolding is_below ends_crlf body
reads_below p =
    let line = first_line (drop p.localbuffer.position p.localbuffer.contents) in
    let marker = get_or line 0 0 in
    ends_crlf line && ((marker == b'$' || marker == b'=') && is_below (parse_int (body line)))

module _ (py : Runtime) (decode_bytes : Bool) (encoding : Option (List ℕ)) where
  unfoldable pub no_below_loop : ℕ → Parser → Bool
  unfolding reads_below in_step_after
  no_below_loop zero p = true
  no_below_loop (suc fuel) p =
      not (reads_below p) && in_step_after (no_below_loop fuel) (pass py decode_bytes encoding p)

  -- No pass of a call of `parse` reads a bulk or verbatim length below -2.
  unfoldable pub no_length_below : Parser → Bool
  unfolding no_below_loop
  no_length_below p = no_below_loop (suc (length p.localbuffer.contents)) p

-- That a reading leaves the two together.
data Stays : Read → Type 0 where
  by_item : (v : Value) (q : Parser) → in_step q ≡ true → Stays (item v q)
  by_opened : (q : Parser) → in_step q ≡ true → Stays (opened q)
  by_short : (q : Parser) → Stays (short q)
  by_fault : (e : Exception) (q : Parser) → in_step q ≡ true → Stays (fault e q)

if_Stays : (b : Bool) {x y : Read} → Stays x → Stays y → Stays (if b then x else y)
if_Stays true h k = h
if_Stays false h k = k

if_else-Stays :
    (b : Bool) {x y : Read} → (b ≡ true → Stays x) → Stays y → Stays (if b then x else y)
if_else-Stays true h k = h refl
if_else-Stays false h k = k

second : (x y : Bool) → x ≡ true → (x && y) ≡ false → y ≡ false
second x y e h = ground arith

pub both_left : (x y : Bool) → (x && y) ≡ true → x ≡ true
both_left x y h = ground arith

pub both_right : (x y : Bool) → (x && y) ≡ true → y ≡ true
both_right x y h = ground arith

not-true : (x : Bool) → not x ≡ true → x ≡ false
not-true true h = cc
not-true false h = refl

module _ (base : Parser) (i : in_step base ≡ true) where
  number-Stays : (z : Option ℤ) → Stays (number z base)
  unfolding number
  number-Stays none = by_fault _ base i
  number-Stays (some z) = by_item _ base i

  double-Stays : (f : Option ℕ) → Stays (double f base)
  unfolding double
  double-Stays none = by_fault _ base i
  double-Stays (some f) = by_item _ base i

  boolean-Stays : (chunk : List ℕ) → Stays (boolean chunk base)
  unfolding boolean
  boolean-Stays [] = by_fault _ base i
  boolean-Stays (c ∷ chunk) = by_item _ base i

  error_item-Stays : (v : Option Value) → Stays (error_item v base)
  unfolding error_item
  error_item-Stays none = by_fault _ base i
  error_item-Stays (some v) = by_item _ base i

  aggregate-Stays : (m : ℕ) (z : Option ℤ) → Stays (aggregate m z base)
  unfolding aggregate push_node in_step
  aggregate-Stays m none = by_fault _ base i
  aggregate-Stays m (some (negsuc n)) = by_item _ base i
  aggregate-Stays m (some (pos zero)) = by_item _ (push_node m 0 base) i
  aggregate-Stays m (some (pos (suc n))) = by_opened (push_node m (suc n) base) i

Ready-in_step : (p : Parser) (u : List ℕ) → Ready p u → in_step p ≡ true
unfolding in_step
Ready-in_step p u r = ground (arith, r.synced, r.not_below)

module _ (py : Runtime) (decode_bytes : Bool) (encoding : Option (List ℕ)) where
  payload-Stays :
      (m : ℕ) (raw : List ℕ) (q : Parser)
      → in_step q ≡ true
      → Stays (payload py decode_bytes encoding m raw q)
  unfolding payload
  payload-Stays m raw q i =
      if_Stays (m == b'=') (if_Stays _ (by_item _ q i) (by_fault _ q i)) (by_item _ q i)

  read_bulk-Stays :
      (base : Parser) (u : List ℕ) (m size n : ℕ)
      → Ready base u
      → Stays (read_bulk py decode_bytes encoding m size n base)
  unfolding read_bulk
  read_bulk-Stays base u m size n r =
      elim (Bool-cases (ltb (base.bytes_written - base.bytes_read) (size + 2))) [
        | inl e ↦ rw e (by_short _)
        | inr e ↦
            let (same, long) = same_piece [] base u (size + 2) r (ground (arith, r.counted)) in
            rw (e, long)
              (payload-Stays m _
                (record base {
                  localbuffer = record base.localbuffer {
                    position = base.localbuffer.position + (size + 2);
                  };
                  bytes_read = base.bytes_read + (size + 2);
                })
                (unfold in_step in ground (arith, r.synced, r.not_below)))
      ]

  bulk-Stays :
      (base : Parser) (u : List ℕ) (m : ℕ) (z : Option ℤ) (n : ℕ)
      → Ready base u
      → is_below z ≡ false
      → Stays (bulk py decode_bytes encoding m z n base)
  unfolding bulk is_below
  bulk-Stays base u m none n r b = by_fault _ base (Ready-in_step base u r)
  bulk-Stays base u m (some (pos size)) n r b = read_bulk-Stays base u m size n r
  bulk-Stays base u m (some (negsuc zero)) n r b = by_item null base (Ready-in_step base u r)
  bulk-Stays base u m (some (negsuc (suc zero))) n r b =
      payload-Stays m [] base (Ready-in_step base u r)
  bulk-Stays base u m (some (negsuc (suc (suc k)))) n r b = cc

  read_item-Stays :
      (base : Parser) (u : List ℕ) (m : ℕ) (chunk : List ℕ) (n : ℕ)
      → Ready base u
      → ((m == b'$' || m == b'=') && is_below (parse_int chunk)) ≡ false
      → Stays (read_item py decode_bytes encoding m chunk n base)
  unfolding read_item
  read_item-Stays base u m chunk n r b =
      let i = Ready-in_step base u r in
      let z = parse_int chunk in
      if_Stays (m == b'+') (by_item (try_decode py decode_bytes encoding chunk) base i) (
        if_else-Stays (m == b'$' || m == b'=') (λ e. bulk-Stays base u m z n r (second _ _ e b))
          (if_Stays (m == b':' || m == b'(') (number-Stays base i z) (
            if_Stays (m == b',') (double-Stays base i (py.to_float chunk)) (
              if_Stays (m == b'_') (by_item null base i) (
                if_Stays (m == b'#') (boolean-Stays base i chunk) (
                  if_Stays (m == b'*' || (m == b'>' || (m == b'%' || m == b'~')))
                    (aggregate-Stays base i m z)
                    (if_Stays (m == b'-')
                      (error_item-Stays base i
                        (py.decode (codes "utf-8") chunk >>= λ text. parse_error text))
                      (by_fault invalid_response base i))))))))

  after_read-in_steps : (m : ℕ) (r : Read) → Stays r → in_steps (after_read m r) ≡ true
  unfolding after_read in_steps
  after_read-in_steps m r (by_item v q h) = settle-in_step m v q.nodes q ∙ h
  after_read-in_steps m r (by_opened q h) = h
  after_read-in_steps m r (by_short q) = refl
  after_read-in_steps m r (by_fault e q h) = h

  pass-in_steps :
      (p : Parser) (u : List ℕ)
      → Ready p u
      → reads_below p ≡ false
      → in_steps (pass py decode_bytes encoding p) ≡ true
  unfolding pass reads_below in_steps
  pass-in_steps p u r b =
      let ahead = drop p.localbuffer.position p.localbuffer.contents in
      let line = first_line ahead in
      let m = get_or line 0 0 in
      let width = length line in
      elim (Bool-cases (ends_crlf line)) [
        | inr e ↦ rw e refl
        | inl e ↦
            let ready = Ready-onward p u width (rw (← r.ahead) (length-first_line-le ahead)) r in
            rw e (
              after_read-in_steps m _ (
                read_item-Stays (advance width p) (drop width u) m (body line) width ready
                  (second _ _ e b)))
      ]

  rest_in_step :
      (n : ℕ) (p : Parser) (u : List ℕ) (s : Step)
      → Ready p u
      → pass py decode_bytes encoding p ≡ s
      → in_steps s ≡ true
      → in_step_after (no_below_loop py decode_bytes encoding n) s ≡ true
      → ((q : Parser) (v : List ℕ)
          → Ready q v
          → no_below_loop py decode_bytes encoding n q ≡ true
          → in_step_loop py decode_bytes encoding n q ≡ true)
      → in_step_after (in_step_loop py decode_bytes encoding n) s ≡ true
  unfolding in_steps in_step_after
  rest_in_step n p u (waits q) r e i h k = refl
  rest_in_step n p u (breaks m v q) r e i h k = refl
  rest_in_step n p u (raises x q) r e i h k = refl
  rest_in_step n p u (continues q) r e i h k =
      let (taken, some_read, fits, next, same) = Ready-next py decode_bytes encoding p q u r e i in
      k q (drop taken u) next h

  loop-in_step :
      (n : ℕ) (p : Parser) (u : List ℕ)
      → Ready p u
      → no_below_loop py decode_bytes encoding n p ≡ true
      → in_step_loop py decode_bytes encoding n p ≡ true
  unfolding no_below_loop in_step_loop
  loop-in_step zero p u r h = refl
  loop-in_step (suc n) p u r h =
      let fine = pass-in_steps p u r (not-true _ (both_left _ _ h)) in
      rw fine (
        rest_in_step n p u (pass py decode_bytes encoding p) r refl fine (both_right _ _ h)
          (λ q v s k. loop-in_step n q v s k))

  -- Such a call leaves `bytes_read` at the position in each pass that goes on.
  pub no_length_below-stays_in_step :
      (p : Parser) (u : List ℕ)
      → Ready p u
      → no_length_below py decode_bytes encoding p ≡ true
      → stays_in_step py decode_bytes encoding p ≡ true
  unfolding no_length_below stays_in_step
  no_length_below-stays_in_step p u r h = loop-in_step (suc (length p.localbuffer.contents)) p u r h

-- ===== src/Resp/Fuel.antt =====
-- The fuel of `parse_loop`: more than enough changes nothing, and a frame needs no more passes than
-- it has bytes.
use coredis.Prelude.{
  ℕ, zero, suc, ◌+◌, ◌≤◌, ◌<◌, ◌≡◌, ◌≢◌, refl, Bool, Option, List, [], ◌∷◌, ◌++◌, arith, length,
  length-append,
}
use Prim.Native.Nat.add
use coredis.Resp.Parser.{
  Outcome, UnpackedResponse, Parser, Runtime, Step, waits, continues, breaks, raises, resume,
  parse_loop, pass, out_of_fuel,
}
use coredis.Resp.Number.{decimal}
use coredis.Resp.Frame.{
  Frame, Frames, Entries, array, push, set_frame, map_frame, done, frame, closed, entry, encode,
  encode_all, encode_entries, count, count_entries, line, blob,
}
use coredis.Resp.Containers.{passes, passes_all, passes_entries}

resume-same :
    (again again' : Parser → Outcome UnpackedResponse) (s : Step)
    → ((p : Parser) → again p ≢ out_of_fuel → again' p ≡ again p)
    → resume again s ≢ out_of_fuel
    → resume again' s ≡ resume again s
unfolding resume
resume-same again again' (continues q) same h = same q h
resume-same again again' (waits q) same h = refl
resume-same again again' (breaks m v q) same h = refl
resume-same again again' (raises e q) same h = refl

module _ (py : Runtime) (decode_bytes : Bool) (encoding : Option (List ℕ)) where
  pub loop-more :
      (n k : ℕ) (p : Parser)
      → parse_loop py decode_bytes encoding n p ≢ out_of_fuel
      → parse_loop py decode_bytes encoding (n + k) p ≡ parse_loop py decode_bytes encoding n p
  unfolding parse_loop
  loop-more zero k p h = absurd (h refl)
  loop-more (suc n) k p h = rw (add.suc n k) (
      resume-same (parse_loop py decode_bytes encoding n)
        (parse_loop py decode_bytes encoding (n + k)) (pass py decode_bytes encoding p)
        (loop-more n k) h)

length-header_pos :
    (marker n : ℕ) (bytes : List ℕ) → length bytes < length (line marker (decimal n) ++ bytes)
unfolding line
length-header_pos marker n bytes = omega (arith, length-append (decimal n ++ 13 ∷ 10 ∷ []) bytes)

length-blob_pos : (marker : ℕ) (raw : List ℕ) → 0 < length (blob marker raw)
unfolding blob line
length-blob_pos marker raw = omega arith

length-line_pos : (marker : ℕ) (chunk : List ℕ) → 0 < length (line marker chunk)
unfolding line
length-line_pos marker chunk = omega arith

mutual
  unfolding passes encode count count_entries

  pub passes-le : (f : Frame) (n : ℕ) → passes f n ≤ length (encode f) + n
  passes-le (array fs) n =
      omega (arith, passes_all-le fs n, length-header_pos b'*' (count fs) (encode_all fs))
  passes-le (push fs) n =
      omega (arith, passes_all-le fs n, length-header_pos b'>' (count fs) (encode_all fs))
  passes-le (set_frame fs) n =
      omega (arith, passes_all-le fs n, length-header_pos b'~' (count fs) (encode_all fs))
  passes-le (map_frame es) n =
      omega (
        arith,
        passes_entries-le es n,
        length-header_pos b'%' (count_entries es) (encode_entries es),
      )
  passes-le _ n = omega (arith, length-line_pos, length-blob_pos)

  pub passes_all-le : (fs : Frames) (n : ℕ) → passes_all fs n ≤ length (encode_all fs) + n
  passes_all-le done n = omega arith
  passes_all-le (frame f fs) n = omega (
    arith,
    passes-le f (passes_all fs n),
    passes_all-le fs n,
    length-append (encode f) (encode_all fs),
  )

  pub passes_entries-le :
      (es : Entries) (n : ℕ) → passes_entries es n ≤ length (encode_entries es) + n
  passes_entries-le closed n = omega arith
  passes_entries-le (entry k v es) n = omega (
    arith,
    passes-le k (passes v (passes_entries es n)),
    passes-le v (passes_entries es n),
    passes_entries-le es n,
    length-append (encode k) (encode v ++ encode_entries es),
    length-append (encode v) (encode_entries es),
  )

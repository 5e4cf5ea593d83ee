-- ===== src/Resp/RoundTrip.antt =====
-- The parser between two responses: what it reads next, and what it leaves.
use coredis.Prelude.{
  ℕ, suc, ◌+◌, ◌-◌, ◌≡◌, ◌≢◌, refl, ap, ◌∙◌, Bool, Option, List, [], ◌∷◌, ◌++◌, ◌==◌, arith, length,
  length-append, Bool-cases, inl, inr,
}
use coredis.Resp.Nodes.{Node}
use coredis.Resp.Parser.{
  Parser, Runtime, UnpackedResponse, parsed, parse, resume, settle, finish, consumed, out_of_fuel,
}
use coredis.Resp.Lines.{Ready, advance, Ready-advance}
use coredis.Resp.Settle.{with_nodes}
use coredis.Resp.Frame.{
  Frame, encode, marker_of, value, IsWellFormed, HasTrueKeys, IsReadable, both-IsReadable,
}
use coredis.Resp.Leaves.{loop, Ready-with_nodes}
use coredis.Resp.Containers.{passes}
use coredis.Resp.Induction.{reads}
use coredis.Resp.Fuel.{loop-more, passes-le}

-- No container is open, and `unread` comes next.
pub record Between (p : Parser) (unread : List ℕ) : Type 0 where
  pub ready : Ready p unread
  pub idle : p.nodes ≡ []

nil_of_length : (xs : List ℕ) → length xs ≡ 0 → [] ≡ xs
nil_of_length [] e = refl
nil_of_length (x ∷ xs) e = absurd (omega arith)

-- `consumed` empties the buffer only where nothing is left in it.
pub consumed-Between : (p : Parser) (u : List ℕ) → Between p u → Between (consumed p) u
unfolding consumed
consumed-Between p u b = elim (Bool-cases (p.bytes_read == p.bytes_written)) [
  | inl e ↦
      let nothing_left : [] ≡ u = nil_of_length u (ground (arith, b.ready.counted)) in
      rw (e, ← nothing_left)
        (record {
          ready = record {
            ahead = refl;
            synced = refl;
            counted = omega arith;
            whole = refl;
            not_below = refl;
          };
          idle = b.idle;
        })
  | inr e ↦ rw e b
]

queue-consumed : (p : Parser) → (consumed p).push_messages ≡ p.push_messages
unfolding consumed
queue-consumed p = ground arith

module _ (py : Runtime) (decode_bytes : Bool) (encoding : Option (List ℕ)) where
  abbrev pub response_of : Frame → UnpackedResponse
  response_of f = record {
    response_type = marker_of f;
    response = value py decode_bytes encoding f;
  }

  run :
      (f : Frame) (p : Parser) (rest : List ℕ)
      → IsReadable py decode_bytes encoding f
      → Between p (encode f ++ rest)
      → parse py decode_bytes encoding p
        ≡ parsed (response_of f) (consumed (with_nodes [] (advance (length (encode f)) p)))
  unfolding parse settle finish resume
  run f p rest w b =
      let done =
        parsed (response_of f) (consumed (with_nodes [] (advance (length (encode f)) p))) in
      let short_run : loop py decode_bytes encoding (passes f 0) p ≡ done =
        ap (λ (ns : List Node). loop py decode_bytes encoding (passes f 0) (with_nodes ns p)) b.idle
        ∙ reads py decode_bytes encoding f w p [] rest 0 tt b.ready in
      let spare = suc (length p.localbuffer.contents) - passes f 0 in
      let fuel : suc (length p.localbuffer.contents) ≡ passes f 0 + spare =
        omega
          (arith, passes-le f 0, b.ready.counted, b.ready.whole, length-append (encode f) rest) in
      let ends : loop py decode_bytes encoding (passes f 0) p ≢ out_of_fuel =
        λ e. cc (e, short_run) in
      ap (λ (k : ℕ). loop py decode_bytes encoding k p) fuel
      ∙ loop-more py decode_bytes encoding (passes f 0) spare p ends
      ∙ short_run

  -- A frame of the types of `Frame` that a server can send, with doubles that `float` reads and errors that `parse_error` makes
  -- an exception of, each key of whose maps is true as Python tests it, is read in one call of `parse` whatever stands behind
  -- it: as the value that it stands for, under its marker, exactly its bytes taken, and the queue of push messages kept.
  pub parse-encode :
      (f : Frame) (p : Parser) (rest : List ℕ)
      → IsWellFormed py decode_bytes encoding f
      → HasTrueKeys py decode_bytes encoding f
      → Between p (encode f ++ rest)
      → (q : Parser) × (parse py decode_bytes encoding p
          ≡ parsed
              (record { response_type = marker_of f; response = value py decode_bytes encoding f })
              q)
        × Between q rest
        × (q.push_messages ≡ p.push_messages)
  parse-encode f p rest w k b =
      let n = length (encode f) in
      let after = with_nodes [] (advance n p) in
      let between : Between after rest = record {
        ready = Ready-with_nodes (advance n p) [] rest (Ready-advance p (encode f) rest b.ready);
        idle = refl;
      } in
      (
        consumed after,
        run f p rest (both-IsReadable py decode_bytes encoding f w k) b,
        consumed-Between after rest between,
        queue-consumed after,
      )

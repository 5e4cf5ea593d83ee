-- ===== src/Resp/Leaves.antt =====
-- The parser's loop over the frames that hold no other frame, and over the headers of the others.
use mathlib.Core.List.{append_assoc}
use coredis.Prelude.{
  ℕ, suc, ◌+◌, ◌-◌, ◌≡◌, ap, sym, ◌∙◌, ◌≢◌, Bool, false, Option, List, [], ◌∷◌, ◌++◌, arith, ltb,
  length, length-append, take, drop, take-length-append,
}
use coredis.Resp.Value.{Value}
use coredis.Resp.Nodes.{Node}
use coredis.Resp.Number.Decimal.{AllVisible}
use coredis.Resp.Parser.{
  Parser, Runtime, Read, Outcome, UnpackedResponse, item, opened, read_item, resume, parse_loop,
  settle, push_node, after_read, read_bulk, payload,
}
use coredis.Resp.Lines.{crlf, OneLine, Ready, advance, pass_line}
use coredis.Resp.Settle.{with_nodes, settle-with_nodes}
use coredis.Resp.Frame.{line}

pub Ready-with_nodes :
    (p : Parser) (nodes : List Node) (u : List ℕ) → Ready p u → Ready (with_nodes nodes p) u
Ready-with_nodes p nodes u r = record {
  ahead = r.ahead;
  synced = r.synced;
  not_below = r.not_below;
  counted = r.counted;
  whole = r.whole;
}

pub line-append :
    (marker : ℕ) (chunk rest : List ℕ)
    → line marker chunk ++ rest ≡ marker ∷ chunk ++ 13 ∷ 10 ∷ rest
unfolding line
line-append marker chunk rest =
    ap (λ (t : List ℕ). marker ∷ t) (append_assoc chunk (13 ∷ 10 ∷ []) rest)

pub length-line : (marker : ℕ) (chunk : List ℕ) → length (line marker chunk) ≡ length chunk + 3
unfolding line
length-line marker chunk = omega (arith, length-append chunk (13 ∷ 10 ∷ []))

pub AllVisible-OneLine : (cs : List ℕ) → AllVisible cs → OneLine cs
AllVisible-OneLine [] h = tt
AllVisible-OneLine (c ∷ cs) h = (omega arith, AllVisible-OneLine cs h.1)

module _ (py : Runtime) (decode_bytes : Bool) (encoding : Option (List ℕ)) where
  abbrev pub loop : ℕ → Parser → Outcome UnpackedResponse
  loop = parse_loop py decode_bytes encoding

  -- A line of its own: one pass.
  pub loop-line :
      (marker : ℕ) (chunk : List ℕ) (p : Parser) (nodes : List Node) (rest : List ℕ) (fuel : ℕ)
      → marker ≢ b'\n'
      → OneLine chunk
      → Ready p (line marker chunk ++ rest)
      → loop (suc fuel) (with_nodes nodes p)
        ≡ resume (loop fuel) (
            after_read marker (
              read_item py decode_bytes encoding marker chunk
                (length chunk + 3)
                (with_nodes nodes (advance (length (line marker chunk)) p))))
  unfolding parse_loop
  loop-line marker chunk p nodes rest fuel no_lf one_line r =
      let r' : Ready (with_nodes nodes p) (marker ∷ chunk ++ 13 ∷ 10 ∷ rest) =
        rw line-append at (Ready-with_nodes p nodes (line marker chunk ++ rest) r) in
      rw (length-line marker chunk) (
        ap (resume (loop fuel)) (
          pass_line py decode_bytes encoding (with_nodes nodes p) marker chunk rest no_lf one_line
            r'))

  -- A line that is a value.
  pub loop-leaf :
      (marker : ℕ) (chunk : List ℕ) (v : Value) (p : Parser) (nodes : List Node) (rest : List ℕ)
      (fuel : ℕ)
      → marker ≢ b'\n'
      → OneLine chunk
      → ((n : ℕ) (q : Parser) → read_item py decode_bytes encoding marker chunk n q ≡ item v q)
      → Ready p (line marker chunk ++ rest)
      → loop (suc fuel) (with_nodes nodes p)
        ≡ resume (loop fuel) (settle marker v nodes (advance (length (line marker chunk)) p))
  unfolding after_read
  loop-leaf marker chunk v p nodes rest fuel no_lf one_line reads r =
      let after = advance (length (line marker chunk)) p in
      loop-line marker chunk p nodes rest fuel no_lf one_line r
      ∙ ap (λ (x : Read). resume (loop fuel) (after_read marker x))
          (reads (length chunk + 3) (with_nodes nodes after))
      ∙ ap (resume (loop fuel)) (settle-with_nodes marker v nodes nodes after)

  -- The header of a container that is not empty: its node is put on top.
  pub loop-header :
      (marker n : ℕ) (chunk : List ℕ) (p : Parser) (nodes : List Node) (rest : List ℕ) (fuel : ℕ)
      → marker ≢ b'\n'
      → OneLine chunk
      → ((k : ℕ) (q : Parser)
          → read_item py decode_bytes encoding marker chunk k q
            ≡ opened (push_node marker (suc n) q))
      → Ready p (line marker chunk ++ rest)
      → loop (suc fuel) (with_nodes nodes p)
        ≡ loop fuel
            (push_node marker (suc n) (with_nodes nodes (advance (length (line marker chunk)) p)))
  unfolding after_read resume
  loop-header marker n chunk p nodes rest fuel no_lf one_line reads r =
      let after = advance (length (line marker chunk)) p in
      loop-line marker chunk p nodes rest fuel no_lf one_line r
      ∙ ap (λ (x : Read). resume (loop fuel) (after_read marker x))
          (reads (length chunk + 3) (with_nodes nodes after))

  -- A length and as many bytes.
  pub read_bulk-blob :
      (marker : ℕ) (raw rest : List ℕ) (n : ℕ) (q : Parser)
      → Ready q (raw ++ 13 ∷ 10 ∷ rest)
      → read_bulk py decode_bytes encoding marker (length raw) n q
        ≡ payload py decode_bytes encoding marker raw (advance (length raw + 2) q)
  unfolding read_bulk
  read_bulk-blob marker raw rest n q r =
      let ahead = drop q.localbuffer.position q.localbuffer.contents in
      let size : length (raw ++ crlf) ≡ length raw + 2 = length-append raw crlf in
      let split : ahead ≡ (raw ++ crlf) ++ rest = r.ahead ∙ sym (append_assoc raw crlf rest) in
      let piece : take (length raw + 2) ahead ≡ raw ++ crlf =
        rw (← size, split) (take-length-append (raw ++ crlf) rest) in
      let enough : ltb (q.bytes_written - q.bytes_read) (length raw + 2) ≡ false =
        ground (arith, r.counted, length-append raw (13 ∷ 10 ∷ rest)) in
      let trimmed : length raw + 2 - 2 ≡ length raw = omega arith in
      rw (enough, piece, size, trimmed, take-length-append raw crlf)

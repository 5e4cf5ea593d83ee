-- ===== src/Resp/Containers.antt =====
-- The parser's loop over a frame inside a container, and over containers: the steps of the round
-- trip's induction.
use native.Mathlib.Nat.{add_assoc}
use mathlib.Core.List.{append_assoc}
use coredis.Prelude.{
  ℕ, suc, ◌+◌, ◌≡◌, ap, sym, ◌∙◌, ◌≢◌, Bool, Option, some, List, ◌∷◌, ◌++◌, arith, length,
  length-append,
}
use coredis.Prelude.Int.{pos}
use coredis.Resp.Value.{Value}
use coredis.Resp.Nodes.{Node, to_value, append}
use coredis.Resp.Number.{parse_int, decimal, show_int}
use coredis.Resp.Number.Decimal.{show_int-AllVisible, parse_int-show_int}
use coredis.Resp.Parser.{
  Parser, Runtime, Read, item, opened, read_item, resume, settle, new_node, push_node, payload,
  after_read, bulk,
}
use coredis.Resp.Lines.{crlf, OneLine, Ready, advance, Ready-advance}
use coredis.Resp.Settle.{
  HeadOpen, with_nodes, settle-with_nodes, settle-more, settle-last, settle-empty,
}
use coredis.Resp.Frame.{
  Frame, Frames, Entries, array, push, set_frame, map_frame, done, frame, closed, entry, line, blob,
  encode, marker_of, value,
}
use coredis.Resp.Leaves.{
  Ready-with_nodes, AllVisible-OneLine, loop, loop-line, loop-header, read_bulk-blob,
}

pub advance-advance : (n k : ℕ) (p : Parser) → advance k (advance n p) ≡ advance (n + k) p
advance-advance n k p = cc (add_assoc p.localbuffer.position n k, add_assoc p.bytes_read n k)

pub decimal-OneLine : (n : ℕ) → OneLine (decimal n)
decimal-OneLine n = AllVisible-OneLine (decimal n) (unfold show_int in show_int-AllVisible (pos n))

pub parse_int-decimal : (n : ℕ) → parse_int (decimal n) ≡ some (pos n)
parse_int-decimal n = unfold show_int in parse_int-show_int (pos n)

-- The passes over a frame, before `n` more.
unfoldable mutual
  pub passes : Frame → ℕ → ℕ
  passes (array fs) n = suc (passes_all fs n)
  passes (push fs) n = suc (passes_all fs n)
  passes (set_frame fs) n = suc (passes_all fs n)
  passes (map_frame es) n = suc (passes_entries es n)
  passes _ n = suc n

  pub passes_all : Frames → ℕ → ℕ
  passes_all done n = n
  passes_all (frame f fs) n = passes f (passes_all fs n)

  pub passes_entries : Entries → ℕ → ℕ
  passes_entries closed n = n
  passes_entries (entry k v es) n = passes k (passes v (passes_entries es n))

module _ (py : Runtime) (decode_bytes : Bool) (encoding : Option (List ℕ)) where
  -- A bulk or verbatim string: one pass.
  pub loop-blob :
      (marker : ℕ) (raw : List ℕ) (v : Value) (p : Parser) (nodes : List Node) (rest : List ℕ)
      (fuel : ℕ)
      → marker ≢ b'\n'
      → ((k : ℕ) (q : Parser)
          → read_item py decode_bytes encoding marker (decimal (length raw)) k q
            ≡ bulk py decode_bytes encoding marker (some (pos (length raw))) k q)
      → ((q : Parser) → payload py decode_bytes encoding marker raw q ≡ item v q)
      → Ready p (blob marker raw ++ rest)
      → loop py decode_bytes encoding (suc fuel) (with_nodes nodes p)
        ≡ resume
            (loop py decode_bytes encoding fuel)
            (settle marker v nodes (advance (length (blob marker raw)) p))
  unfolding blob bulk after_read
  loop-blob marker raw v p nodes rest fuel no_lf reads pays r =
      let header = line marker (decimal (length raw)) in
      let tail = raw ++ crlf in
      let n = length (decimal (length raw)) + 3 in
      let again = loop py decode_bytes encoding fuel in
      let at_header = advance (length header) p in
      let q = with_nodes nodes at_header in
      let r' : Ready p (header ++ (tail ++ rest)) = rw append_assoc at r in
      let rq : Ready q (raw ++ 13 ∷ 10 ∷ rest) = rw append_assoc at (
        Ready-with_nodes at_header nodes (tail ++ rest)
          (Ready-advance p header (tail ++ rest) r')) in
      let read =
        reads n q
        ∙ read_bulk-blob py decode_bytes encoding marker raw rest n q rq
        ∙ pays (advance (length raw + 2) q) in
      let total : length header + (length raw + 2) ≡ length (header ++ tail) =
        omega (arith, length-append header tail, length-append raw crlf) in
      loop-line py decode_bytes encoding marker (decimal (length raw)) p nodes (tail ++ rest) fuel
        no_lf (decimal-OneLine (length raw)) r'
      ∙ ap (λ (x : Read). resume again (after_read marker x)) read
      ∙ ap (resume again) (
          settle-with_nodes marker v nodes nodes (advance (length raw + 2) at_header)
          ∙ ap (settle marker v nodes) (
              advance-advance (length header) (length raw + 2) p
              ∙ ap (λ (k : ℕ). advance k p) total))

  -- A frame read under some open containers: its value goes to them, and the rest is left.
  abbrev pub Reads : Frame → Type 0
  Reads f =
      (p : Parser) (nodes : List Node) (rest : List ℕ) (fuel : ℕ)
      → HeadOpen nodes
      → Ready p (encode f ++ rest)
      → loop py decode_bytes encoding (passes f fuel) (with_nodes nodes p)
        ≡ resume (loop py decode_bytes encoding fuel) (
            settle (marker_of f) (value py decode_bytes encoding f) nodes
              (advance (length (encode f)) p))

  -- All that is left of a container, and there is some.
  abbrev pub ReadsRest : Node → List Node → ℕ → ℕ → List ℕ → Node → Type 0
  ReadsRest node below before after bytes full =
      (p : Parser) (rest : List ℕ)
      → HeadOpen below
      → Ready p (bytes ++ rest)
      → loop py decode_bytes encoding before (with_nodes (node ∷ below) p)
        ≡ resume (loop py decode_bytes encoding after)
            (settle node.node_type (to_value full.container) below (advance (length bytes) p))

  -- One frame inside a container that needs more after it.
  pub child-more :
      (f : Frame) (d : ℕ) (node : Node) (below : List Node) (p : Parser) (rest : List ℕ) (fuel : ℕ)
      → Reads f
      → node.depth ≡ suc (suc d)
      → Ready p (encode f ++ rest)
      → loop py decode_bytes encoding (passes f fuel) (with_nodes (node ∷ below) p)
        ≡ loop py decode_bytes encoding fuel (
            with_nodes
              (append node (value py decode_bytes encoding f) ∷ below)
              (advance (length (encode f)) p))
  unfolding resume
  child-more f d node below p rest fuel reads e r =
      reads p (node ∷ below) rest fuel (omega arith) r
      ∙ ap (resume (loop py decode_bytes encoding fuel)) (
          settle-more (marker_of f) d (value py decode_bytes encoding f) node below
            (advance (length (encode f)) p) e)

  pub child-last :
      (f : Frame) (node : Node) (below : List Node) (fuel : ℕ)
      → Reads f
      → node.depth ≡ 1
      → ReadsRest node below
          (passes f fuel)
          fuel
          (encode f)
          (append node (value py decode_bytes encoding f))
  child-last f node below fuel reads e p rest h r =
      reads p (node ∷ below) rest fuel (omega arith) r
      ∙ ap (resume (loop py decode_bytes encoding fuel)) (
          settle-last (marker_of f) (value py decode_bytes encoding f) node below
            (advance (length (encode f)) p) e h)

  -- The frames that follow a first one are read from where that one ended.
  pub then_rest :
      (f : Frame) (d before after : ℕ) (node : Node) (below : List Node) (more : List ℕ)
      (full : Node)
      → Reads f
      → node.depth ≡ suc (suc d)
      → ReadsRest (append node (value py decode_bytes encoding f)) below before after more full
      → ReadsRest node below (passes f before) after (encode f ++ more) full
  unfolding append
  then_rest f d before after node below more full reads e tail p rest h r =
      let r' : Ready p (encode f ++ (more ++ rest)) = rw append_assoc at r in
      let next = advance (length (encode f)) p in
      child-more f d node below p (more ++ rest) before reads e r'
      ∙ tail next rest h (Ready-advance p (encode f) (more ++ rest) r')
      ∙ ap
          (λ (q : Parser).
            resume (loop py decode_bytes encoding after)
              (settle node.node_type (to_value full.container) below q))
          (advance-advance (length (encode f)) (length more) p
            ∙ ap (λ (k : ℕ). advance k p) (sym (length-append (encode f) more)))

  -- A container that is not empty, from its header on.
  pub loop-open :
      (marker d before after : ℕ) (bytes : List ℕ) (full : Node) (p : Parser) (nodes : List Node)
      (rest : List ℕ)
      → marker ≢ b'\n'
      → ((k : ℕ) (q : Parser)
          → read_item py decode_bytes encoding marker (decimal (suc d)) k q
            ≡ opened (push_node marker (suc d) q))
      → ReadsRest (new_node marker (suc d)) nodes before after bytes full
      → HeadOpen nodes
      → Ready p ((line marker (decimal (suc d)) ++ bytes) ++ rest)
      → loop py decode_bytes encoding (suc before) (with_nodes nodes p)
        ≡ resume (loop py decode_bytes encoding after) (
            settle
              (new_node marker (suc d)).node_type
              (to_value full.container)
              nodes
              (advance (length (line marker (decimal (suc d)) ++ bytes)) p))
  unfolding push_node
  loop-open marker d before after bytes full p nodes rest no_lf reads inside h r =
      let header = line marker (decimal (suc d)) in
      let r' : Ready p (header ++ (bytes ++ rest)) = rw append_assoc at r in
      let next = advance (length header) p in
      loop-header py decode_bytes encoding marker d (decimal (suc d)) p nodes (bytes ++ rest) before
        no_lf (decimal-OneLine (suc d)) reads r'
      ∙ inside next rest h (Ready-advance p header (bytes ++ rest) r')
      ∙ ap
          (λ (q : Parser).
            resume (loop py decode_bytes encoding after)
              (settle (new_node marker (suc d)).node_type (to_value full.container) nodes q))
          (advance-advance (length header) (length bytes) p
            ∙ ap (λ (k : ℕ). advance k p) (sym (length-append header bytes)))

  -- A container that is empty.
  pub loop-empty :
      (marker fuel : ℕ) (p : Parser) (nodes : List Node) (rest : List ℕ)
      → marker ≢ b'\n'
      → (new_node marker 0).depth ≡ 0
      → ((k : ℕ) (q : Parser)
          → read_item py decode_bytes encoding marker (decimal 0) k q
            ≡ item Value.null (push_node marker 0 q))
      → HeadOpen nodes
      → Ready p (line marker (decimal 0) ++ rest)
      → loop py decode_bytes encoding (suc fuel) (with_nodes nodes p)
        ≡ resume (loop py decode_bytes encoding fuel) (
            settle
              (new_node marker 0).node_type
              (to_value (new_node marker 0).container)
              nodes
              (advance (length (line marker (decimal 0))) p))
  unfolding push_node after_read
  loop-empty marker fuel p nodes rest no_lf shallow reads h r =
      let after = advance (length (line marker (decimal 0))) p in
      let node = new_node marker 0 in
      loop-line py decode_bytes encoding marker (decimal 0) p nodes rest fuel no_lf
        (decimal-OneLine 0) r
      ∙ ap (λ (x : Read). resume (loop py decode_bytes encoding fuel) (after_read marker x))
          (reads (length (decimal 0) + 3) (with_nodes nodes after))
      ∙ ap (resume (loop py decode_bytes encoding fuel)) (
          settle-with_nodes marker Value.null (node ∷ nodes) (node ∷ nodes) after
          ∙ settle-empty marker Value.null node nodes after shallow h)

-- ===== src/Resp/Induction.antt =====
-- The induction over frames: each is read wherever it stands in the stream and however
-- deep it is nested.
use mathlib.Core.List.{append-nil}
use coredis.Prelude.{
  ℕ, zero, suc, ◌*◌, ◌<◌, ◌≡◌, ◌≢◌, ◌⊎◌, inl, inr, refl, ap, sym, ◌∙◌, Bool, true, false, Option,
  some, List, [], ◌++◌, arith, length,
}
use coredis.Prelude.Int.{ℤ, pos}
use coredis.Resp.Value.{Value, int, nil, end, is_truthy}
use coredis.Resp.Nodes.{Node, to_value, append}
use coredis.Resp.Number.{decimal, show_int}
use coredis.Resp.Number.Decimal.{show_int-AllVisible, parse_int-show_int}
use coredis.Resp.Errors.{codes}
use coredis.Resp.Parser
use coredis.Resp.Parser.{item, Parser, Runtime, read_item, payload, new_node, resume, settle}
use coredis.Resp.Lines.{OneLine}
use coredis.Resp.Frame.{
  Frame, Frames, Entries, simple, bulk, verbatim, null_bulk, null_array, nothing, number,
  big_number, double, boolean, failure, array, push, set_frame, map_frame, done, frame, closed,
  entry, count, count_entries, line, blob, marker_of, encode, encode_all, encode_entries, value,
  IsReadable, AllReadable, EntriesReadable,
}
use coredis.Resp.Fill.{fill, fill_entries, fill-array, fill-set, fill-dict}
use coredis.Resp.Leaves.{AllVisible-OneLine, loop-leaf}
use coredis.Resp.Containers.{
  passes, passes_all, passes_entries, parse_int-decimal, loop-blob, Reads, ReadsRest, child-last,
  then_rest, loop-open, loop-empty,
}

-- Not a container.
abbrev IsFlat : Frame → Type 0
IsFlat (array fs) = ⊥
IsFlat (push fs) = ⊥
IsFlat (set_frame fs) = ⊥
IsFlat (map_frame es) = ⊥
IsFlat _ = Unit

show_int-OneLine : (z : ℤ) → OneLine (show_int z)
show_int-OneLine z = AllVisible-OneLine (show_int z) (show_int-AllVisible z)

module _ (py : Runtime) (decode_bytes : Bool) (encoding : Option (List ℕ)) where
  abbrev pub R : Frame → Type 0
  R = Reads py decode_bytes encoding

  abbrev pub ReadsAll : Node → List Node → ℕ → ℕ → List ℕ → Node → Type 0
  ReadsAll = ReadsRest py decode_bytes encoding

  depth-append : (node : Node) (v : Value) (d : ℕ) → node.depth ≡ suc d → (append node v).depth ≡ d
  unfolding append
  depth-append node v d e = omega arith

  -- A frame that is one line.
  reads_line :
      (f : Frame) (marker : ℕ) (chunk : List ℕ)
      → marker_of f ≡ marker
      → encode f ≡ line marker chunk
      → ((n : ℕ) → passes f n ≡ suc n)
      → marker ≢ b'\n'
      → OneLine chunk
      → ((n : ℕ) (q : Parser)
          → read_item py decode_bytes encoding marker chunk n q
            ≡ item (value py decode_bytes encoding f) q)
      → R f
  reads_line f marker chunk m e n no_lf one_line step p nodes rest fuel h r =
      rw (n fuel, e, m)
        (loop-leaf py decode_bytes encoding marker chunk (value py decode_bytes encoding f) p nodes
          rest fuel no_lf one_line step (rw e at r))

  -- A frame that is a length and as many bytes.
  reads_blob :
      (f : Frame) (marker : ℕ) (raw : List ℕ)
      → marker_of f ≡ marker
      → encode f ≡ blob marker raw
      → ((n : ℕ) → passes f n ≡ suc n)
      → marker ≢ b'\n'
      → ((k : ℕ) (q : Parser)
          → read_item py decode_bytes encoding marker (decimal (length raw)) k q
            ≡ Parser.bulk py decode_bytes encoding marker (some (pos (length raw))) k q)
      → ((q : Parser)
          → payload py decode_bytes encoding marker raw q
            ≡ item (value py decode_bytes encoding f) q)
      → R f
  reads_blob f marker raw m e n no_lf step pays p nodes rest fuel h r =
      rw (n fuel, e, m)
        (loop-blob py decode_bytes encoding marker raw (value py decode_bytes encoding f) p nodes
          rest fuel no_lf step pays (rw e at r))

  int_line :
      (marker : ℕ) (z : ℤ) (n : ℕ) (q : Parser)
      → (marker ≡ b':') ⊎ (marker ≡ b'(')
      → read_item py decode_bytes encoding marker (show_int z) n q ≡ item (int z) q
  unfolding read_item
  int_line marker z n q (inl e) = rw (e, parse_int-show_int z)
  int_line marker z n q (inr e) = rw (e, parse_int-show_int z)

  reads_flat : (f : Frame) → IsFlat f → IsReadable py decode_bytes encoding f → R f
  unfolding passes encode marker_of read_item value
  reads_flat (simple chunk) flat w =
      reads_line (simple chunk) b'+' chunk refl refl (λ n. refl) (omega arith) w (λ n q. refl)
  reads_flat (bulk raw) flat w =
      reads_blob (bulk raw) b'$' raw refl refl (λ n. refl) (omega arith)
        (λ k q. rw (parse_int-decimal (length raw))) (λ q. refl)
  reads_flat (verbatim raw) flat w =
      reads_blob (verbatim raw) b'=' (codes "txt:" ++ raw) refl refl (λ n. refl) (omega arith)
        (λ k q. rw (parse_int-decimal (length (codes "txt:" ++ raw)))) (λ q. refl)
  reads_flat null_bulk flat w =
      reads_line null_bulk b'$' (codes "-1") refl refl (λ n. refl) (omega arith) (omega arith)
        (λ n q. refl)
  reads_flat null_array flat w =
      reads_line null_array b'*' (codes "-1") refl refl (λ n. refl) (omega arith) (omega arith)
        (λ n q. refl)
  reads_flat nothing flat w =
      reads_line nothing b'_' [] refl refl (λ n. refl) (omega arith) tt (λ n q. refl)
  reads_flat (number z) flat w =
      reads_line (number z) b':' (show_int z) refl refl (λ n. refl) (omega arith)
        (show_int-OneLine z) (λ n q. int_line b':' z n q (inl refl))
  reads_flat (big_number z) flat w =
      reads_line (big_number z) b'(' (show_int z) refl refl (λ n. refl) (omega arith)
        (show_int-OneLine z) (λ n q. int_line b'(' z n q (inr refl))
  reads_flat (double chunk f) flat w =
      reads_line (double chunk f) b',' chunk refl refl (λ n. refl) (omega arith) w.0
        (λ n q. rw (w.1))
  reads_flat (boolean true) flat w =
      reads_line (boolean true) b'#' (codes "t") refl refl (λ n. refl) (omega arith) (omega arith)
        (λ n q. refl)
  reads_flat (boolean false) flat w =
      reads_line (boolean false) b'#' (codes "f") refl refl (λ n. refl) (omega arith) (omega arith)
        (λ n q. refl)
  reads_flat (failure chunk e) flat w =
      reads_line (failure chunk e) b'-' chunk refl refl (λ n. refl) (omega arith) w.0
        (λ n q. rw (w.1))
  reads_flat (array fs) flat w = absurd flat
  reads_flat (push fs) flat w = absurd flat
  reads_flat (set_frame fs) flat w = absurd flat
  reads_flat (map_frame es) flat w = absurd flat

  -- A container, from what reads its contents: `n` is the length in its header.
  reads_container :
      (f : Frame) (marker n : ℕ) (bytes : List ℕ) (before : ℕ → ℕ) (full : Node)
      → encode f ≡ line marker (decimal n) ++ bytes
      → ((fuel : ℕ) → passes f fuel ≡ suc (before fuel))
      → marker ≢ b'\n'
      → (new_node marker 0).depth ≡ 0
      → (new_node marker n).node_type ≡ marker_of f
      → ((k : ℕ) (q : Parser)
          → read_item py decode_bytes encoding marker (decimal n) k q
            ≡ Parser.aggregate marker (some (pos n)) q)
      → to_value full.container ≡ value py decode_bytes encoding f
      → (n ≡ 0 → (bytes ≡ []) × ((fuel : ℕ) → before fuel ≡ fuel) × (full ≡ new_node marker 0))
      → (0 < n
          → (below : List Node) (fuel : ℕ)
          → ReadsAll (new_node marker n) below (before fuel) fuel bytes full)
      → R f
  unfolding Parser.aggregate
  reads_container f marker zero bytes before full e passed no_lf shallow kind step v empty inside p
        nodes rest fuel h r =
      let (no_bytes, no_passes, same) = empty refl in
      let e' : encode f ≡ line marker (decimal 0) =
        e
        ∙ ap (λ (b : List ℕ). line marker (decimal 0) ++ b) no_bytes
        ∙ append-nil (line marker (decimal 0)) in
      let v' : to_value (new_node marker 0).container ≡ value py decode_bytes encoding f =
        ap (λ (n : Node). to_value n.container) (sym same) ∙ v in
      rw (passed fuel, no_passes fuel, e', ← kind, ← v')
        (loop-empty py decode_bytes encoding marker fuel p nodes rest no_lf shallow step h
          (rw e' at r))
  reads_container f marker (suc n) bytes before full e passed no_lf shallow kind step v empty inside
        p nodes rest fuel h r =
      rw (passed fuel, e, ← kind, ← v)
        (loop-open py decode_bytes encoding marker n (before fuel) fuel bytes full p nodes rest
          no_lf step (inside (omega arith) nodes fuel) h (rw e at r))

  no_frames :
      (marker : ℕ) (fs : Frames)
      → count fs ≡ 0
      → (encode_all fs ≡ [])
        × ((fuel : ℕ) → passes_all fs fuel ≡ fuel)
        × (fill py decode_bytes encoding (new_node marker (count fs)) fs ≡ new_node marker 0)
  unfolding encode passes fill count
  no_frames marker done e = (refl, λ fuel. refl, refl)
  no_frames marker (frame f fs) e = absurd (omega arith)

  no_entries :
      (es : Entries)
      → count_entries es ≡ 0
      → (encode_entries es ≡ [])
        × ((fuel : ℕ) → passes_entries es fuel ≡ fuel)
        × (fill_entries py decode_bytes encoding (new_node b'%' (count_entries es)) es
            ≡ new_node b'%' 0)
  unfolding encode passes fill_entries count_entries
  no_entries closed e = (refl, λ fuel. refl, refl)
  no_entries (entry k v es) e = absurd (omega arith)

  -- What is left of an open container of frames.
  abbrev Inside : Frames → Type 0
  Inside fs =
      (node : Node) (below : List Node) (fuel : ℕ)
      → 0 < count fs
      → node.depth ≡ count fs
      → ReadsAll node below (passes_all fs fuel) fuel (encode_all fs)
          (fill py decode_bytes encoding node fs)

  reads_array : (fs : Frames) → Inside fs → R (array fs)
  unfolding passes encode marker_of new_node read_item to_value value
  reads_array fs inside =
      let node = new_node b'*' (count fs) in
      reads_container (array fs) b'*' (count fs) (encode_all fs) (passes_all fs)
        (fill py decode_bytes encoding node fs) refl (λ fuel. refl) (omega arith) refl refl
        (λ k q. rw (parse_int-decimal (count fs)))
        (ap to_value (fill-array py decode_bytes encoding fs node refl)) (no_frames b'*' fs)
        (λ some_left below fuel. inside node below fuel some_left refl)

  reads_push : (fs : Frames) → Inside fs → R (push fs)
  unfolding passes encode marker_of new_node read_item to_value value
  reads_push fs inside =
      let node = new_node b'>' (count fs) in
      reads_container (push fs) b'>' (count fs) (encode_all fs) (passes_all fs)
        (fill py decode_bytes encoding node fs) refl (λ fuel. refl) (omega arith) refl refl
        (λ k q. rw (parse_int-decimal (count fs)))
        (ap to_value (fill-array py decode_bytes encoding fs node refl)) (no_frames b'>' fs)
        (λ some_left below fuel. inside node below fuel some_left refl)

  reads_set : (fs : Frames) → Inside fs → R (set_frame fs)
  unfolding passes encode marker_of new_node read_item to_value value
  reads_set fs inside =
      let node = new_node b'~' (count fs) in
      reads_container (set_frame fs) b'~' (count fs) (encode_all fs) (passes_all fs)
        (fill py decode_bytes encoding node fs) refl (λ fuel. refl) (omega arith) refl refl
        (λ k q. rw (parse_int-decimal (count fs)))
        (ap to_value (fill-set py decode_bytes encoding fs node nil refl)) (no_frames b'~' fs)
        (λ some_left below fuel. inside node below fuel some_left refl)

  abbrev InsideEntries : Entries → Type 0
  InsideEntries es =
      (node : Node) (below : List Node) (fuel : ℕ)
      → 0 < count_entries es
      → node.depth ≡ count_entries es * 2
      → ReadsAll node below (passes_entries es fuel) fuel (encode_entries es)
          (fill_entries py decode_bytes encoding node es)

  reads_map :
      (es : Entries)
      → EntriesReadable py decode_bytes encoding es
      → InsideEntries es
      → R (map_frame es)
  unfolding passes encode marker_of new_node read_item to_value value is_truthy
  reads_map es w inside =
      let node = new_node b'%' (count_entries es) in
      reads_container (map_frame es) b'%' (count_entries es) (encode_entries es) (passes_entries es)
        (fill_entries py decode_bytes encoding node es) refl (λ fuel. refl) (omega arith) refl refl
        (λ k q. rw (parse_int-decimal (count_entries es)))
        (ap to_value (fill-dict py decode_bytes encoding es node end refl refl w)) (no_entries es)
        (λ some_left below fuel. inside node below fuel some_left refl)

  mutual
    unfolding passes encode count marker_of fill fill_entries count_entries

    pub reads : (f : Frame) → IsReadable py decode_bytes encoding f → R f
    reads (array fs) w =
        reads_array fs (λ node below fuel some_left e. reads_all fs node below fuel w some_left e)
    reads (push fs) w =
        reads_push fs (λ node below fuel some_left e. reads_all fs node below fuel w some_left e)
    reads (set_frame fs) w =
        reads_set fs (λ node below fuel some_left e. reads_all fs node below fuel w some_left e)
    reads (map_frame es) w =
        reads_map es w
          (λ node below fuel some_left e. reads_entries es node below fuel w some_left e)
    reads f w = reads_flat f tt w

    pub reads_all :
        (fs : Frames) (node : Node) (below : List Node) (fuel : ℕ)
        → AllReadable py decode_bytes encoding fs
        → 0 < count fs
        → node.depth ≡ count fs
        → ReadsAll node below
            (passes_all fs fuel)
            fuel
            (encode_all fs)
            (fill py decode_bytes encoding node fs)
    reads_all done node below fuel w some_left e = absurd (omega arith)
    reads_all (frame f done) node below fuel w some_left e =
        rw (append-nil) (child-last py decode_bytes encoding f node below fuel (reads f w.0) e)
    reads_all (frame f (frame g gs)) node below fuel w some_left e =
        let v = value py decode_bytes encoding f in
        then_rest py decode_bytes encoding f (count gs) (passes_all (frame g gs) fuel) fuel node
          below (encode_all (frame g gs))
          (fill py decode_bytes encoding (append node v) (frame g gs)) (reads f w.0) e
          (reads_all (frame g gs) (append node v) below fuel w.1 (omega arith)
            (depth-append node v (suc (count gs)) e))

    pub reads_entries :
        (es : Entries) (node : Node) (below : List Node) (fuel : ℕ)
        → EntriesReadable py decode_bytes encoding es
        → 0 < count_entries es
        → node.depth ≡ count_entries es * 2
        → ReadsAll node below
            (passes_entries es fuel)
            fuel
            (encode_entries es)
            (fill_entries py decode_bytes encoding node es)
    reads_entries closed node below fuel w some_left e = absurd (omega arith)
    reads_entries (entry k v closed) node below fuel w some_left e =
        let kv = value py decode_bytes encoding k in
        let vv = value py decode_bytes encoding v in
        then_rest py decode_bytes encoding k 0 (passes v fuel) fuel node below (encode v ++ [])
          (append (append node kv) vv) (reads k w.0) e
          (rw (append-nil) (
            child-last py decode_bytes encoding v (append node kv) below fuel (reads v w.2)
              (depth-append node kv 1 e)))
    reads_entries (entry k v (entry l u es)) node below fuel w some_left e =
        let kv = value py decode_bytes encoding k in
        let vv = value py decode_bytes encoding v in
        let d = count_entries es * 2 in
        let before = passes_entries (entry l u es) fuel in
        let full =
          fill_entries py decode_bytes encoding (append (append node kv) vv) (entry l u es) in
        then_rest py decode_bytes encoding k (suc (suc d)) (passes v before) fuel node below
          (encode v ++ encode_entries (entry l u es)) full (reads k w.0) (omega arith)
          (then_rest py decode_bytes encoding v (suc d) before fuel (append node kv) below
            (encode_entries (entry l u es)) full (reads v w.2)
            (depth-append node kv (suc (suc (suc d))) (omega arith))
            (reads_entries (entry l u es) (append (append node kv) vv) below fuel w.3 (omega arith)
              (depth-append (append node kv) vv (suc (suc d))
                  (depth-append node kv (suc (suc (suc d))) (omega arith))
                ∙ omega arith)))

-- ===== src/Resp/Fill.antt =====
-- What a container holds once all that was sent for it has been appended.
use coredis.Prelude.{ℕ, ◌≡◌, refl, ap, ◌∙◌, Bool, true, false, Option, List}
use coredis.Resp.Value.{
  Value, Values, Pairs, null, nil, cons, snoc, dict_set, set_add, is_truthy, ensure_hashable,
}
use coredis.Resp.Nodes.{Node, list_of, dict_of, set_of, append, put}
use coredis.Resp.Parser.{Runtime}
use coredis.Resp.Frame.{
  Frame, Frames, Entries, done, frame, closed, entry, value, values, elements, items,
  EntriesReadable,
}

join : Values → Values → Values
join nil ws = ws
join (cons v vs) ws = cons v (join vs ws)

join-snoc : (vs : Values) (v : Value) (ws : Values) → join (snoc vs v) ws ≡ join vs (cons v ws)
unfolding join snoc
join-snoc nil v ws = refl
join-snoc (cons x vs) v ws = ap (cons x) (join-snoc vs v ws)

join-nil : (vs : Values) → vs ≡ join vs nil
unfolding join
join-nil nil = refl
join-nil (cons v vs) = ap (cons v) (join-nil vs)

module _ (py : Runtime) (decode_bytes : Bool) (encoding : Option (List ℕ)) where
  abbrev val : Frame → Value
  val = value py decode_bytes encoding

  unfoldable pub fill : Node → Frames → Node
  fill node done = node
  fill node (frame f fs) = fill (append node (val f)) fs

  unfoldable pub fill_entries : Node → Entries → Node
  fill_entries node closed = node
  fill_entries node (entry k v es) = fill_entries (append (append node (val k)) (val v)) es

  fill-list :
      (fs : Frames) (node : Node) (vs : Values)
      → node.container ≡ list_of vs
      → (fill node fs).container ≡ list_of (join vs (values py decode_bytes encoding fs))
  unfolding fill append put value
  fill-list done node vs e = e ∙ ap list_of (join-nil vs)
  fill-list (frame f fs) node vs e =
      fill-list fs (append node (val f)) (snoc vs (val f)) (rw (e, put))
      ∙ ap list_of (join-snoc vs (val f) (values py decode_bytes encoding fs))

  pub fill-array :
      (fs : Frames) (node : Node)
      → node.container ≡ list_of nil
      → (fill node fs).container ≡ list_of (values py decode_bytes encoding fs)
  unfolding join
  fill-array fs node e = fill-list fs node nil e

  pub fill-set :
      (fs : Frames) (node : Node) (vs : Values)
      → node.container ≡ set_of vs
      → (fill node fs).container ≡ set_of (elements py decode_bytes encoding fs vs)
  unfolding fill append put value
  fill-set done node vs e = e
  fill-set (frame f fs) node vs e =
      fill-set fs (append node (val f)) (set_add vs (ensure_hashable (val f))) (rw (e, put))

  -- A key that is true is kept until its value comes, and then is gone.
  append-pair :
      (node : Node) (ps : Pairs) (k v : Value)
      → node.container ≡ dict_of ps
      → is_truthy node.key ≡ false
      → is_truthy (ensure_hashable k) ≡ true
      → ((append (append node k) v).container ≡ dict_of (dict_set ps (ensure_hashable k) v))
        × ((append (append node k) v).key ≡ null)
  unfolding append put
  append-pair node ps k v e f t = rw (e, put, f, put, t) (refl, refl)

  pub fill-dict :
      (es : Entries) (node : Node) (ps : Pairs)
      → node.container ≡ dict_of ps
      → is_truthy node.key ≡ false
      → EntriesReadable py decode_bytes encoding es
      → (fill_entries node es).container ≡ dict_of (items py decode_bytes encoding es ps)
  unfolding fill_entries value
  fill-dict closed node ps e f w = e
  fill-dict (entry k v es) node ps e f w =
      let (contents, key) = append-pair node ps (val k) (val v) e f w.1 in
      fill-dict es (append (append node (val k)) (val v))
        (dict_set ps (ensure_hashable (val k)) (val v)) contents (rw key (unfold is_truthy in refl))
        w.3

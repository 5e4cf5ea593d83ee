-- ===== src/Resp/Nodes.antt =====
-- The open containers of coredis/parser.py: `ListNode`, `DictNode` and `SetNode`.
use coredis.Prelude.{ℕ, ◌-◌, ◌*◌, List, [], ◌∷◌, ◌==◌, if◌then◌else◌}
use coredis.Resp.Value.{
  Value, Values, Pairs, null, list, set, dict, nil, end, snoc, is_truthy, dict_set, set_add,
  ensure_hashable,
}

-- The class of a node, with what it holds.
pub data Container : Type 0 where
  list_of : Values → Container
  dict_of : Pairs → Container
  set_of : Values → Container

-- `key` is None but where a `DictNode` waits for the value of a key.
pub record Node : Type 0 where
  pub depth : ℕ
  pub node_type : ℕ
  pub key : Value
  pub container : Container

-- `node.container`
unfoldable pub to_value : Container → Value
to_value (list_of vs) = list vs
to_value (dict_of ps) = dict ps
to_value (set_of vs) = set vs

unfoldable pub list_node : ℕ → ℕ → Node
list_node depth node_type = record {
  depth = depth;
  node_type = node_type;
  key = null;
  container = list_of nil;
}

unfoldable pub dict_node : ℕ → Node
dict_node depth = record {
  depth = depth * 2;
  node_type = b'%';
  key = null;
  container = dict_of end;
}

unfoldable pub set_node : ℕ → Node
set_node depth = record { depth = depth; node_type = b'~'; key = null; container = set_of nil }

-- What `append` leaves of the key and the container.
unfoldable pub put : Container → Value → Value → Value × Container
unfolding snoc set_add dict_set ensure_hashable is_truthy
put (list_of vs) key item = (key, list_of (snoc vs item))
put (set_of vs) key item = (key, set_of (set_add vs (ensure_hashable item)))
put (dict_of ps) key item =
    if is_truthy key
    then (null, dict_of (dict_set ps key item))
    else (ensure_hashable item, dict_of ps)

-- `append` of the three classes. The parser calls it at a depth above 0 only.
unfoldable pub append : Node → Value → Node
unfolding put
append node item =
    let (key, container) = put node.container node.key item in
    record node { depth = node.depth - 1; key = key; container = container }

-- `while len(nodes) > 1 and nodes[-1].depth == 0`, over a stack whose top is `top`.
unfoldable pub close_nodes : Node → List Node → List Node
unfolding append to_value
close_nodes top [] = top ∷ []
close_nodes top (below ∷ rest) =
    let closed = close_nodes (append below (to_value top.container)) rest in
    if top.depth == 0 then closed else top ∷ below ∷ rest

-- ===== src/Resp/Falsy.antt =====
-- `DictNode.append` takes a key that Python tests as false (0, b"", None, False) for no key.
use coredis.Prelude.{◌-◌, ◌≡◌, false}
use coredis.Resp.Value.{Value, Pairs, is_truthy, ensure_hashable}
use coredis.Resp.Nodes.{Node, dict_of, put, append}

-- A map that waits for a key and is given such a key, and its value, is the map that it was, and
-- the value has become the key of what comes next.
pub append-falsy :
    (node : Node) (ps : Pairs) (key value : Value)
    → node.container ≡ dict_of ps
    → is_truthy node.key ≡ false
    → is_truthy (ensure_hashable key) ≡ false
    → append (append node key) value
      ≡ record node { depth = node.depth - 1 - 1; key = ensure_hashable value }
unfolding append put
append-falsy node ps key value shape idle falsy = rw (shape, idle, falsy) cc

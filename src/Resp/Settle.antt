-- ===== src/Resp/Settle.antt =====
-- Where a value goes: into the open container, and up when that is full.
use coredis.Prelude.{ℕ, suc, ◌-◌, ◌<◌, ◌≡◌, refl, List, [], ◌∷◌, arith}
use coredis.Resp.Value.{Value}
use coredis.Resp.Nodes.{Node, to_value, append, close_nodes}
use coredis.Resp.Parser.{Parser, continues, finish, settle}

abbrev pub with_nodes : List Node → Parser → Parser
with_nodes nodes p = record p { nodes = nodes }

-- The innermost open container, if any, lacks something.
abbrev pub HeadOpen : List Node → Type 0
HeadOpen [] = Unit {0}
HeadOpen (top ∷ rest) = 0 < top.depth

finish-with_nodes :
    (marker : ℕ) (v : Value) (nodes other : List Node) (p : Parser)
    → finish marker v nodes (with_nodes other p) ≡ finish marker v nodes p
unfolding finish
finish-with_nodes marker v [] other p = refl
finish-with_nodes marker v (top ∷ []) other p = ground arith
finish-with_nodes marker v (top ∷ below ∷ rest) other p = refl

pub settle-with_nodes :
    (marker : ℕ) (v : Value) (nodes other : List Node) (p : Parser)
    → settle marker v nodes (with_nodes other p) ≡ settle marker v nodes p
unfolding settle
settle-with_nodes marker v [] other p = finish-with_nodes marker v [] other p
settle-with_nodes marker v (top ∷ rest) other p = rw (
  finish-with_nodes marker v (close_nodes (append top v) rest) other p,
  finish-with_nodes marker v (close_nodes top rest) other p,
)

-- Past the first pass over a container, `finish` does not read the last value.
finish-close_nodes :
    (m n : ℕ) (v w : Value) (top : Node) (below : List Node) (p : Parser)
    → finish m v (close_nodes top below) p ≡ finish n w (close_nodes top below) p
unfolding finish close_nodes
finish-close_nodes m n v w top [] p = refl
finish-close_nodes m n v w top (b ∷ below) p =
    ground (arith, finish-close_nodes m n v w (append b (to_value top.container)) below p)

-- A container that still lacks something stays on top.
finish-open :
    (marker : ℕ) (v : Value) (top : Node) (below : List Node) (p : Parser)
    → 0 < top.depth
    → finish marker v (close_nodes top below) p ≡ continues (with_nodes (top ∷ below) p)
unfolding finish close_nodes
finish-open marker v top [] p h = ground arith
finish-open marker v top (b ∷ below) p h = ground arith

depth-append : (node : Node) (v : Value) → (append node v).depth ≡ node.depth - 1
unfolding append
depth-append node v = refl

node_type-append : (node : Node) (v : Value) → (append node v).node_type ≡ node.node_type
unfolding append
node_type-append node v = refl

pub settle-more :
    (marker d : ℕ) (v : Value) (node : Node) (below : List Node) (p : Parser)
    → node.depth ≡ suc (suc d)
    → settle marker v (node ∷ below) p ≡ continues (with_nodes (append node v ∷ below) p)
unfolding settle
settle-more marker d v node below p e =
    ground (arith, depth-append node v, finish-open marker v (append node v) below p)

close-full :
    (top b : Node) (below : List Node)
    → top.depth ≡ 0
    → close_nodes top (b ∷ below) ≡ close_nodes (append b (to_value top.container)) below
unfolding close_nodes
close-full top b below h = ground arith

-- A container that is full goes to the one around it as its value does, or is the response.
settle-full :
    (marker : ℕ) (v : Value) (node : Node) (below : List Node) (p : Parser)
    → node.depth ≡ 0
    → HeadOpen below
    → finish marker v (close_nodes node below) p
      ≡ settle node.node_type (to_value node.container) below p
unfolding settle
settle-full marker v node [] p e h = unfold finish close_nodes in ground arith
settle-full marker v node (b ∷ below) p e h =
    let value = to_value node.container in
    let filled = append b value in
    ground (
      arith,
      close-full node b below e,
      finish-open marker v filled below p,
      finish-close_nodes marker node.node_type v value filled below p,
    )

-- The last value of a container.
pub settle-last :
    (marker : ℕ) (v : Value) (node : Node) (below : List Node) (p : Parser)
    → node.depth ≡ 1
    → HeadOpen below
    → settle marker v (node ∷ below) p
      ≡ settle node.node_type (to_value (append node v).container) below p
unfolding settle
settle-last marker v node below p e h = ground (
  arith,
  depth-append node v,
  node_type-append node v,
  settle-full marker v (append node v) below p,
)

-- A container that is empty from the start.
pub settle-empty :
    (marker : ℕ) (v : Value) (node : Node) (below : List Node) (p : Parser)
    → node.depth ≡ 0
    → HeadOpen below
    → settle marker v (node ∷ below) p ≡ settle node.node_type (to_value node.container) below p
unfolding settle
settle-empty marker v node below p e h = ground (arith, settle-full marker v node below p)

-- ===== src/Cluster.antt =====
-- `RedisCluster` of coredis/client/cluster.py, as far as it finds the nodes of a command and talks to them.
pub mod Split
pub mod Portions
pub mod Sent
pub mod Repeated
pub mod Redirect
pub mod Taken
pub mod Released
pub mod Moved
pub mod Tests
use coredis.Prelude.{
  ℕ, Bool, true, false, ◌&&◌, not, Option, none, some, List, [], ◌∷◌, if◌then◌else◌,
}
use coredis.Dict.{find}
use coredis.NodeManager.{
  ManagedNode, Manager, Names, names_equal, node_from_slot, all_primaries, values,
}

-- `NodeFlag`
pub data NodeFlag : Type 0 where
  all primaries replicas random slot_id : NodeFlag

-- The attributes that the routing reads; `cached` is that there is a cache.
pub record Router : Type 0 where
  pub route_flags : Names NodeFlag
  pub split_flags : Names NodeFlag
  pub non_atomic_cross_slot : Bool
  pub cached : Bool
  pub readonly_commands : Names (Unit {0})

unfoldable pub is_found : {A : Type 0} → Option A → Bool
is_found none = false
is_found (some a) = true

-- `command in self.split_flags and self.non_atomic_cross_slot`
unfoldable pub is_split : Router → List ℕ → Bool
unfolding is_found
is_split r command = is_found (find names_equal command r.split_flags) && r.non_atomic_cross_slot

unfoldable pub flag_of : Router → List ℕ → Option NodeFlag
unfolding is_split
flag_of r command =
    if is_split r command
    then find names_equal command r.split_flags
    else find names_equal command r.route_flags

-- `[node_from_slot] if node_from_slot else None`
unfoldable pub one_node : Option ManagedNode → Option (List ManagedNode)
one_node none = none
one_node (some node) = some (node ∷ [])

unfoldable pub slot_nodes : Manager → Option ℕ → Option (Option (List ManagedNode))
unfolding one_node node_from_slot
slot_nodes m none = some none
slot_nodes m (some slot) = elim (node_from_slot m slot) [
  | none ↦ none
  | some node ↦ some (one_node node)
]

-- What the flag of a command says; `random` is what `random_node` gives, and `none` is a KeyError.
unfoldable pub nodes_of_flag :
    Manager → ManagedNode → Option ℕ → Option NodeFlag → Option (Option (List ManagedNode))
unfolding slot_nodes all_primaries values
nodes_of_flag m chosen slot (some random) = some (some (chosen ∷ []))
nodes_of_flag m chosen slot (some primaries) = some (some (all_primaries m))
nodes_of_flag m chosen slot (some all) = some (some (values m.nodes))
nodes_of_flag m chosen slot (some slot_id) = slot_nodes m slot
nodes_of_flag m chosen slot _ = some none

unfoldable pub determine_node :
    Router → Manager → ManagedNode → List ℕ → Option ℕ → Option (Option (List ManagedNode))
unfolding flag_of nodes_of_flag
determine_node r m chosen command slot = nodes_of_flag m chosen slot (flag_of r command)

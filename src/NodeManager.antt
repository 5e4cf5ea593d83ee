-- ===== src/NodeManager.antt =====
-- `ManagedNode` and the state of `NodeManager` of coredis/pool/nodemanager.py, with the methods that
-- read it. Texts are lists of codes, and ports and slots natural numbers.
pub mod Discover
pub mod Initialize
pub mod Routed
pub mod Topology
pub mod Covered
pub mod Keys
pub mod Grouped
pub mod Counter
pub mod Unreachable
pub mod Tests
use coredis.Prelude.{
  ℕ, zero, suc, ◌+◌, ◌≡◌, refl, ap, Bool, true, false, Option, none, some, List, [], ◌∷◌, ◌++◌,
  ℕ_discrete, if◌then◌else◌, map,
}
use Prim.{Discrete, yes, no}
use mathlib.Core.Option
use coredis.Dict.{find, set_item}
pub use coredis.Names.{Names}
unfoldable pub use coredis.Names.{names_equal}
use coredis.HashSlot.{hash_slot}
use coredis.Resp.Number.{decimal}

pub data ServerType : Type 0 where
  primary replica : ServerType

pub record ManagedNode : Type 0 where
  pub host : List ℕ
  pub port : ℕ
  pub server_type : Option ServerType
  pub node_id : Option (List ℕ)

-- `ManagedNode.name`
unfoldable pub name_of : ManagedNode → List ℕ
name_of n = n.host ++ b':' ∷ decimal n.port

-- A dict from slots.
abbrev pub Slots : Type 0 → Type 0
Slots V = List (ℕ × V)

-- The attribute `refresh_table_asap`, which nothing reads, is left out.
pub record Manager : Type 0 where
  pub nodes : Names ManagedNode
  pub slots : Slots (List ManagedNode)
  pub startup_nodes : List ManagedNode
  pub orig_startup_nodes : List ManagedNode
  pub startup_nodes_reachable : Bool
  pub reinitialize_counter : ℕ
  pub reinitialize_steps : ℕ
  pub skip_full_coverage_check : Bool
  pub nodemanager_follow_cluster : Bool
  pub replicas_per_shard : ℕ

unfoldable pub startup_node : List ℕ × ℕ → ManagedNode
startup_node (host, port) = record { host = host; port = port; server_type = none; node_id = none }

unfoldable or_25 : Option ℕ → ℕ
or_25 (some (suc n)) = suc n
or_25 _ = 25

-- `NodeManager.__init__`; the startup nodes are those of the argument that are not empty.
unfoldable pub init : List (List ℕ × ℕ) → Option ℕ → Bool → Bool → Manager
unfolding startup_node or_25
init startup_nodes reinitialize_steps skip follow = record {
  nodes = [];
  slots = [];
  startup_nodes = map startup_node startup_nodes;
  orig_startup_nodes = map startup_node startup_nodes;
  startup_nodes_reachable = false;
  reinitialize_counter = 0;
  reinitialize_steps = or_25 reinitialize_steps;
  skip_full_coverage_check = skip;
  nodemanager_follow_cluster = follow;
  replicas_per_shard = 0;
}

-- `self.nodes.values()`
unfoldable pub values : {K V : Type 0} → List (K × V) → List V
values [] = []
values ((k, v) ∷ entries) = v ∷ values entries

unfoldable pub is_primary : ManagedNode → Bool
is_primary n = elim n.server_type [ some primary ↦ true | _ ↦ false ]

unfoldable pub is_replica : ManagedNode → Bool
is_replica n = elim n.server_type [ some replica ↦ true | _ ↦ false ]

unfoldable pub keep : (ManagedNode → Bool) → List ManagedNode → List ManagedNode
keep test [] = []
keep test (n ∷ ns) = let later = keep test ns in if test n then n ∷ later else later

unfoldable pub all_primaries : Manager → List ManagedNode
unfolding keep values is_primary
all_primaries m = keep is_primary (values m.nodes)

unfoldable pub all_replicas : Manager → List ManagedNode
unfolding keep values is_replica
all_replicas m = keep is_replica (values m.nodes)

unfoldable pub first_primary : List ManagedNode → Option ManagedNode
unfolding is_primary
first_primary [] = none
first_primary (n ∷ ns) = let later = first_primary ns in if is_primary n then some n else later

-- `none` is a KeyError.
unfoldable pub node_from_slot : Manager → ℕ → Option (Option ManagedNode)
node_from_slot m slot = Option.map first_primary (find ℕ_discrete slot m.slots)

unfoldable pub set_node : List ℕ → ℕ → ServerType → Manager → Manager
unfolding name_of
set_node host port server_type m =
    let node : ManagedNode = record {
      host = host;
      port = port;
      server_type = some server_type;
      node_id = none;
    } in
    record m { nodes = set_item names_equal (name_of node) node m.nodes }

unfoldable pub populate_startup_nodes : Manager → Manager
unfolding values
populate_startup_nodes m = record m { startup_nodes = values m.nodes }

-- ===== src/NodeManager/Discover.antt =====
-- What `NodeManager.initialize` of coredis/pool/nodemanager.py learns from one reply.
use coredis.Prelude.{
  ℕ, zero, suc, ◌-◌, Bool, false, none, some, List, [], ◌∷◌, ◌++◌, ℕ_discrete, if◌then◌else◌, map,
  length, ltb,
}
use coredis.Dict.{find, set_item}
use coredis.Resp.Value.{same_codes}
use coredis.NodeManager.{
  ServerType, primary, replica, ManagedNode, name_of, Names, Slots, names_equal,
}

-- What a server says of a node of a range of slots.
pub record SlotNode : Type 0 where
  pub host : List ℕ
  pub port : ℕ
  pub node_id : List ℕ

-- Two names for the primary of a slot: the one held, and that of the startup node that was asked.
pub record Conflict : Type 0 where
  pub held : List ℕ
  pub asked : List ℕ
  pub slot : ℕ

-- The three kinds of RedisClusterException, with what their messages tell, and the other exceptions.
pub data Exception (E : Type 0) : Type 0 where
  cannot_agree : List Conflict → Exception E
  cannot_connect : Names (List (List ℕ)) → Exception E
  not_covered : ℕ → Exception E
  assertion : Exception E
  index_error : Exception E
  other : E → Exception E

pub data Outcome (E A : Type 0) : Type 0 where
  done : A → Outcome E A
  raised : Exception E → Outcome E A

infixl 5 ◌>>=◌
abbrev pub ◌>>=◌ : {E A B : Type 0} → Outcome E A → (A → Outcome E B) → Outcome E B
done a >>= f = f a
raised e >>= f = raised e

-- The ranges of slots of a reply, by their first and last slot.
abbrev pub Ranges : Type 0
Ranges = List ((ℕ × ℕ) × List SlotNode)

-- How `cluster_slots` ends: with the ranges, a RedisError of this text, or another exception.
pub data SlotsAnswer (E : Type 0) : Type 0 where
  ranges : Ranges → SlotsAnswer E
  redis_error : List ℕ → SlotsAnswer E
  slots_exception : E → SlotsAnswer E

-- How `config_get` ends: with the values, a ResponseError, a ConnectionError or another exception.
pub data ConfigAnswer (E : Type 0) : Type 0 where
  config : List (List ℕ) → ConfigAnswer E
  response_error : ConfigAnswer E
  connection_error : ConfigAnswer E
  config_exception : E → ConfigAnswer E

-- The servers, with a state of their own.
pub record Servers (S E : Type 0) : Type 0 where
  pub cluster_slots : ManagedNode → S → SlotsAnswer E × S
  pub config_get : ManagedNode → S → ConfigAnswer E × S

-- The local variables of `initialize`. A set is a dict of units.
pub record Progress : Type 0 where
  pub nodes_cache : Names ManagedNode
  pub tmp_slots : Slots (List ManagedNode)
  pub all_slots_covered : Bool
  pub disagreements : List Conflict
  pub replicas : Names (Unit {0})
  pub startup_node_errors : Names (List (List ℕ))

abbrev pub start : Progress
start = record {
  nodes_cache = [];
  tmp_slots = [];
  all_slots_covered = false;
  disagreements = [];
  replicas = [];
  startup_node_errors = [];
}

-- `errors.setdefault(err, []).append(name)`
unfoldable pub note_error : List ℕ → List ℕ → Names (List (List ℕ)) → Names (List (List ℕ))
note_error err name errors = elim (find names_equal err errors) [
  | none ↦ set_item names_equal err (name ∷ []) errors
  | some names ↦ set_item names_equal err (names ++ name ∷ []) errors
]

unfoldable pub cache_nodes : List ManagedNode → Names ManagedNode → Names ManagedNode
unfolding name_of
cache_nodes [] cache = cache
cache_nodes (n ∷ ns) cache = cache_nodes ns (set_item names_equal (name_of n) n cache)

unfoldable pub add_names : List ManagedNode → Names (Unit {0}) → Names (Unit {0})
unfolding name_of
add_names [] names = names
add_names (n ∷ ns) names = add_names ns (set_item names_equal (name_of n) tt names)

abbrev pub managed : ServerType → SlotNode → ManagedNode
managed server_type n = record {
  host = n.host;
  port = n.port;
  server_type = some server_type;
  node_id = some n.node_id;
}

-- `host or default`
unfoldable pub or_host : List ℕ → List ℕ → List ℕ
or_host [] default = default
or_host (c ∷ cs) default = c ∷ cs

abbrev pub primary_of : ManagedNode → SlotNode → ManagedNode
primary_of node n =
    let found = managed primary n in record found { host = or_host n.host node.host }

module _ {E : Type 0} where
  -- A slot that is in `tmp_slots` already.
  unfoldable pub compare_slot : ℕ → ManagedNode → List ManagedNode → Progress → Outcome E Progress
  unfolding name_of same_codes
  compare_slot i node [] p = raised index_error
  compare_slot i node (owner ∷ owners) p =
      let disagreements : List Conflict =
        p.disagreements ++ (record { held = name_of owner; asked = name_of node; slot = i }) ∷ [] in
      if same_codes (name_of owner) (name_of node)
      then done p
      else if ltb 5 (length disagreements)
      then raised (cannot_agree disagreements)
      else done (record p { disagreements = disagreements })

  unfoldable pub claim_slot :
      ManagedNode → ManagedNode → List ManagedNode → ℕ → Progress → Outcome E Progress
  unfolding cache_nodes add_names compare_slot
  claim_slot node primary_node replica_nodes i p = elim (find ℕ_discrete i p.tmp_slots) [
    | none ↦ done (record p {
      tmp_slots = set_item ℕ_discrete i (primary_node ∷ replica_nodes) p.tmp_slots;
      nodes_cache = cache_nodes replica_nodes p.nodes_cache;
      replicas = add_names replica_nodes p.replicas;
    })
    | some owners ↦ compare_slot i node owners p
  ]

  -- `for i in range(first, first + count)`
  unfoldable pub claim_slots :
      ManagedNode → ManagedNode → List ManagedNode → ℕ → ℕ → Progress → Outcome E Progress
  unfolding claim_slot
  claim_slots node primary_node replica_nodes first zero p = done p
  claim_slots node primary_node replica_nodes first (suc count) p =
      claim_slot node primary_node replica_nodes first p
      >>= claim_slots node primary_node replica_nodes (suc first) count

  -- One range of the reply of `node`.
  unfoldable pub learn_range : ManagedNode → (ℕ × ℕ) × List SlotNode → Progress → Outcome E Progress
  unfolding claim_slots name_of
  learn_range node ((min_slot, max_slot), []) p = raised assertion
  learn_range node ((min_slot, max_slot), first ∷ rest) p =
      let primary_node = primary_of node first in
      claim_slots node primary_node (map (managed replica) rest) min_slot (suc max_slot - min_slot)
        (record p {
          nodes_cache = set_item names_equal (name_of primary_node) primary_node p.nodes_cache;
        })

  unfoldable pub learn_ranges : ManagedNode → Ranges → Progress → Outcome E Progress
  unfolding learn_range
  learn_ranges node [] p = done p
  learn_ranges node (range ∷ rest) p = learn_range node range p >>= learn_ranges node rest

-- ===== src/NodeManager/Tests.antt =====
-- Runs of the node manager, and the theorems at concrete servers.
use coredis.Prelude.{ℕ, ◌≡◌, refl, Bool, true, false, some, List, [], ◌∷◌, ℕ_discrete, arith}
use mathlib.Core.Option
use coredis.Dict.{find, set_item}
use coredis.HashSlot.{hash_slot, crc16_step}
use coredis.Resp.Errors.{codes}
use coredis.Resp.Number.{decimal}
use coredis.NodeManager.{
  primary, replica, ManagedNode, Names, Manager, init, name_of, names_equal, node_from_slot,
  is_primary, values, first_primary,
}
use coredis.NodeManager.Discover.{
  or_host, SlotNode, Outcome, done, raised, cannot_agree, cannot_connect, Servers, ranges,
  redis_error, config,
}
use coredis.NodeManager.Initialize.{
  after_config, chosen_nodes, initialize, after_initialize, count_up,
  increment_reinitialize_counter,
}
use coredis.NodeManager.Routed.{has, AllOwned}
use coredis.NodeManager.Topology.{initialize-raised, initialize-AllOwned}
use coredis.NodeManager.Covered.{initialize-covers}
use coredis.NodeManager.Unreachable.{names_under, failed_with, failures, initialize-cannot_connect}
use coredis.NodeManager.Keys.{
  Grouping, keys_to_nodes_by_slot, keys_under, keep_keys, goes_to, keys_to_nodes_by_slot_lem,
}
use coredis.NodeManager.Counter.{increment_reinitialize_counter-initialize}

abbrev slot_node : List ℕ → ℕ → SlotNode
slot_node host port = record { host = host; port = port; node_id = [] }

-- Two shards, the first with a replica, for eight slots.
abbrev two_shards : Servers (Unit {0}) (Unit {0})
two_shards = record {
  cluster_slots = λ n s. (
    ranges (
        ((0, 3), slot_node (codes "a") 1 ∷ slot_node (codes "b") 2 ∷ [])
        ∷ ((4, 7), slot_node (codes "c") 3 ∷ [])
        ∷ []),
    tt,
  );
  config_get = λ n s. (config (codes "yes" ∷ []), tt);
}

abbrev no_servers : Servers (Unit {0}) (Unit {0})
no_servers = record {
  cluster_slots = λ n s. (redis_error (codes "down"), tt);
  config_get = λ n s. (config [], tt);
}

abbrev one_startup : Manager
one_startup = init ((codes "a", 1) ∷ []) (some 2) false true

abbrev two_startup : Manager
two_startup = init ((codes "a", 1) ∷ (codes "z", 9) ∷ []) (some 2) false true

abbrev first_primary_node : ManagedNode
first_primary_node = record {
  host = codes "a";
  port = 1;
  server_type = some primary;
  node_id = some [];
}

abbrev after : Manager
after = (initialize 8 two_shards two_startup tt).1

ran : initialize 8 two_shards two_startup tt ≡ (done tt, after, tt)
unfolding initialize find set_item ℕ_discrete names_equal init name_of decimal or_host after_config
ran = refl

abbrev after_rest : Names ManagedNode
after_rest =
    (
      codes "b:2",
      record { host = codes "b"; port = 2; server_type = some replica; node_id = some [] },
    )
    ∷ (
      codes "c:3",
      record { host = codes "c"; port = 3; server_type = some primary; node_id = some [] },
    )
    ∷ []

after_nodes : after.nodes ≡ (codes "a:1", first_primary_node) ∷ after_rest
unfolding initialize find set_item ℕ_discrete names_equal init name_of decimal or_host after_config
after_nodes = refl

routed : Option.map (Option.map name_of) (node_from_slot after 5) ≡ some (some (codes "c:3"))
unfolding initialize find set_item ℕ_discrete names_equal init name_of decimal or_host after_config
    node_from_slot first_primary
routed = refl

-- Two servers that tell the same, where a slot is missing: they are taken to disagree, since the
-- name that is compared is that of the server asked.
is_disagreement : {E A : Type 0} → Outcome E A → Bool
is_disagreement (raised (cannot_agree conflicts)) = true
is_disagreement _ = false

false_alarm : is_disagreement (initialize 9 two_shards two_startup tt).0 ≡ true
unfolding initialize find set_item ℕ_discrete names_equal init name_of decimal or_host after_config
    is_disagreement
false_alarm = refl

-- Three nodes, of which one is a replica of one of two shards.
shards : after.replicas_per_shard ≡ 2
unfolding initialize find set_item ℕ_discrete names_equal init name_of decimal or_host after_config
shards = refl

initialize-AllOwned_example :
    AllOwned after.nodes after.slots
    × (after.startup_nodes ≡ values after.nodes)
    × (after.reinitialize_counter ≡ 0)
initialize-AllOwned_example = initialize-AllOwned 8 two_shards two_startup after tt tt ran

initialize-covers_example :
    (p : ManagedNode) × (node_from_slot after 5 ≡ some (some p))
    × (is_primary p ≡ true)
    × (has (name_of p) after.nodes ≡ true)
unfolding init
initialize-covers_example =
    initialize-covers 8 two_shards (λ n s. (tt, refl)) two_startup after tt tt
      (codes "a:1", first_primary_node) after_rest 5 refl ran after_nodes (omega arith)

abbrev down : Manager
down = (initialize 8 no_servers two_startup tt).1

down_ran :
    initialize 8 no_servers two_startup tt
    ≡ (raised (cannot_connect ((codes "down", codes "a:1" ∷ codes "z:9" ∷ []) ∷ [])), down, tt)
unfolding initialize find set_item ℕ_discrete names_equal init name_of decimal or_host after_config
down_ran = refl

initialize-raised_example :
    down ≡ record two_startup { startup_nodes_reachable = down.startup_nodes_reachable }
initialize-raised_example = initialize-raised 8 no_servers two_startup down tt tt _ down_ran

initialize-cannot_connect_example :
    (errors : Names (List (List ℕ))) × (t : Unit {0}) × (initialize 8 no_servers two_startup tt
      ≡ (raised (cannot_connect errors), record two_startup { startup_nodes_reachable = false }, t))
    × ((text : List ℕ)
        → names_under text errors
          ≡ failed_with text (failures no_servers (chosen_nodes two_startup) tt))
initialize-cannot_connect_example =
    initialize-cannot_connect 8 no_servers (λ n s. (codes "down", tt, refl)) two_startup tt

increment_reinitialize_counter-initialize_example :
    increment_reinitialize_counter 8 two_shards 2 two_startup tt
    ≡ after_initialize 8 two_shards
        (λ n t. count_up 8 two_shards 0 n t)
        (initialize 8 two_shards (record two_startup { reinitialize_counter = 2 }) tt)
unfolding init
increment_reinitialize_counter-initialize_example =
    increment_reinitialize_counter-initialize 8 two_shards 2 1 0 two_startup tt refl refl
      (omega arith)

-- `a` hashes to the slot 15495.
abbrev holder : Manager
holder = record after { slots = (15495, first_primary_node ∷ []) ∷ [] }

abbrev grouped : Grouping
grouped = (codes "a:1", (15495, codes "a" ∷ codes "x{a}" ∷ []) ∷ []) ∷ []

grouped_keys : keys_to_nodes_by_slot holder (codes "a" ∷ codes "x{a}" ∷ []) ≡ some grouped
unfolding keys_to_nodes_by_slot hash_slot find set_item ℕ_discrete names_equal name_of decimal
    crc16_step first_primary
grouped_keys = refl

keys_to_nodes_by_slot_lem_example :
    keys_under (codes "a:1") 15495 grouped
    ≡ keep_keys (goes_to holder (codes "a:1") 15495) (codes "a" ∷ codes "x{a}" ∷ [])
keys_to_nodes_by_slot_lem_example =
    keys_to_nodes_by_slot_lem holder (codes "a:1") 15495 (codes "a" ∷ codes "x{a}" ∷ []) grouped
      grouped_keys

-- ===== src/Cluster/Tests.antt =====
-- Commands of coredis/client/cluster.py that are split over the nodes, at some inputs.
use coredis.Prelude.{
  ◌+◌, ◌≤◌, ◌==◌, get_or, ℕ, ◌≡◌, refl, true, false, none, some, List, [], ◌∷◌, map, if◌then◌else◌,
  ℕ_discrete,
}
use coredis.Dict.{find, set_item, same}
use coredis.HashSlot.{hash_slot, crc16_step}
use coredis.Resp.Errors.{codes}
use coredis.Resp.Packer.{raw}
use coredis.KeySpec.Spec.{extracted, eval, resolve}
use coredis.KeySpec.Slices.{slice}
use coredis.Resp.Number.{decimal}
use coredis.KeySpec.Extract.{extract_keys, find_spec, choose_spec, apply_spec, command_name}
use coredis.KeySpec.Readonly.{readonly}
use coredis.KeySpec.All.{all_keys, all_keys_second, all_keys_third}
use coredis.NodeManager.{
  ManagedNode, Manager, init, primary, names_equal, name_of, set_node, first_primary,
}
use coredis.NodeManager.Keys.{keys_to_nodes_by_slot}
use coredis.Cluster.{Router, primaries, is_split, is_found}
use coredis.Cluster.Split.{
  Args, Portions, portioned, unmapped, grouped, index, split_keys, keys_of, forgotten_keys,
  split_args_over_nodes,
}
use coredis.Cluster.Sent.{IsSent, split_args_over_nodes-IsSent}
use coredis.Retry.{returned, failed}
use coredis.Cluster.Redirect.{
  World, Run, moved, ask, again, result, lookup_error, found, execute_command_on_single_node,
  take_connection, take_from, first_node, on_failure, get_primary_node_by_slots,
}
use coredis.Cluster.Released.{Balanced, execute_command_on_single_node-Balanced}
use coredis.Cluster.Moved.{moved_node, on_failure-moved}
use coredis.Cluster.Repeated.{split_args_over_nodes-all_keys}

abbrev router : Router
router = record {
  route_flags = [];
  split_flags = (codes "DEL", primaries) ∷ [];
  non_atomic_cross_slot = true;
  cached = true;
  readonly_commands = [];
}

abbrev node : List ℕ → ManagedNode
node host = record { host = host; port = 1; server_type = some primary; node_id = none }

-- `a` hashes to the slot 15495, and `b` to the slot 3300.
abbrev holder : Manager
holder = record (init [] none false false) {
  slots = (15495, node (codes "m") ∷ []) ∷ (3300, node (codes "n") ∷ []) ∷ [];
}

abbrev keys : Args
keys = codes "a" ∷ codes "b" ∷ codes "{a}" ∷ []

abbrev sent : Portions
sent =
    (codes "m:1", (codes "a" ∷ codes "{a}" ∷ []) ∷ []) ∷ (codes "n:1", (codes "b" ∷ []) ∷ []) ∷ []

splits_del : is_split router (codes "DEL") ≡ true
unfolding is_split find names_equal ℕ_discrete
splits_del = refl

keys_of_del : keys_of (codes "DEL") keys false ≡ extracted (map (λ key. raw key) keys)
unfolding keys_of extract_keys find_spec readonly all_keys all_keys_second all_keys_third
    choose_spec apply_spec command_name eval resolve slice
keys_of_del = refl

sends_del : split_args_over_nodes router holder [] (codes "DEL") keys ≡ portioned sent keys
unfolding split_args_over_nodes split_keys keys_to_nodes_by_slot hash_slot find set_item ℕ_discrete
    names_equal name_of decimal crc16_step first_primary
sends_del = rw (splits_del, keys_of_del) refl

split_args_over_nodes-IsSent_example : IsSent holder keys keys sent
split_args_over_nodes-IsSent_example =
    split_args_over_nodes-IsSent router holder [] (codes "DEL") keys (codes "a")
      (codes "b" ∷ codes "{a}" ∷ []) keys sent splits_del keys_of_del sends_del

keys_of_exists :
    keys_of (codes "DEL") (codes "a" ∷ codes "b" ∷ codes "a" ∷ []) false
    ≡ extracted (map (λ key. raw key) (codes "a" ∷ codes "b" ∷ codes "a" ∷ []))
unfolding keys_of extract_keys find_spec readonly all_keys all_keys_second all_keys_third
    choose_spec apply_spec command_name eval resolve slice
keys_of_exists = refl

-- A key that is given twice.
split_args_over_nodes-all_keys_example :
    split_args_over_nodes router holder [] (codes "DEL") (codes "a" ∷ codes "b" ∷ codes "a" ∷ [])
    ≡ (if is_found (index (codes "a") (codes "a" ∷ codes "b" ∷ []))
        then unmapped
        else grouped [] []
            (forgotten_keys router (codes "DEL") (codes "a" ∷ codes "b" ∷ codes "a" ∷ []))
            (keys_to_nodes_by_slot holder (codes "a" ∷ codes "b" ∷ codes "a" ∷ [])))
split_args_over_nodes-all_keys_example =
    split_args_over_nodes-all_keys router holder [] (codes "DEL") (codes "a" ∷ codes "b" ∷ [])
      (codes "a") splits_del keys_of_exists

-- The state counts the replies: MOVED to `n` for the slot 15495, and then a result. A connection is the host's first code.
abbrev moving : World ℕ ℕ ℕ
moving = record {
  get_connection_by_node = λ to m s. (returned (get_or to.host 0 0), s);
  get_random_connection = λ primary m s. (returned 0, s);
  release = λ r s. s;
  asks = λ r s. (returned tt, s);
  sends = λ r s. (returned tt, s);
  replies = λ r s. (if s == 0 then failed (moved (codes "n") 1 15495) else returned r, s + 1);
  refreshes = λ m s. (returned m, s);
  counts_up = λ m s. (returned m, s);
}

-- The call ends with the reply of the second connection.
moves_on :
    (execute_command_on_single_node moving holder false none (15495 ∷ []) true 0).0
    ≡ result (get_or (codes "n") 0 0)
unfolding execute_command_on_single_node take_connection first_node find ℕ_discrete set_node
    names_equal set_item name_of decimal
moves_on = refl

execute_command_on_single_node-Balanced_example :
    (n : ℕ) × (n ≤ 16)
    × Balanced n
        (execute_command_on_single_node moving holder false none (15495 ∷ []) true 0).1.events
execute_command_on_single_node-Balanced_example =
    execute_command_on_single_node-Balanced moving holder false none (15495 ∷ []) true 0

abbrev called : Run ℕ
called = record {
  manager = holder;
  refresh_table_asap = false;
  slots = 15495 ∷ [];
  node = none;
  asking = false;
  redirect_addr = none;
  try_random_node = false;
  random_primary = false;
  quick_release = true;
  events = [];
  state = 0;
}

slot_there : find ℕ_discrete 15495 holder.slots ≡ some (node (codes "m") ∷ [])
unfolding find ℕ_discrete
slot_there = refl

on_failure-moved_example :
    (next : Run ℕ) × (on_failure moving (moved (codes "n") 1 15495) called ≡ again next)
    × (take_connection moving next ≡ take_from moving (moved_node (codes "n") 1) next)
    × ((t : ℕ)
        → first_node next.manager t ≡ (
            if same ℕ_discrete t 15495
            then some (moved_node (codes "n") 1)
            else first_node holder t))
on_failure-moved_example =
    on_failure-moved moving (codes "n") 1 15495 15495 [] called holder 0 (node (codes "m")) [] refl
      refl refl slot_there

-- Redirected with ASK to a node that is not among those known.
abbrev asked : World ℕ ℕ ℕ
asked = record moving { replies = λ r s. (failed (ask (codes "o") 1), s) }

ask_unknown :
    (execute_command_on_single_node asked holder false none (15495 ∷ []) true 0).0 ≡ lookup_error
unfolding execute_command_on_single_node take_connection first_node find ℕ_discrete names_equal
    decimal init
ask_unknown = refl

-- After two MOVED replies both nodes have no identifier, and slots of different nodes are taken for those of one.
abbrev nameless : Manager
nameless = record holder {
  slots = (15495, moved_node (codes "m") 1 ∷ []) ∷ (3300, moved_node (codes "n") 1 ∷ []) ∷ [];
}

one_of_two :
    get_primary_node_by_slots nameless (15495 ∷ 3300 ∷ []) ≡ found (moved_node (codes "m") 1)
unfolding get_primary_node_by_slots first_node find ℕ_discrete
one_of_two = refl

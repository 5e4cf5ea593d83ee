-- ===== src/NodeManager/Initialize.antt =====
-- `NodeManager.initialize` of coredis/pool/nodemanager.py, the check of full coverage and
-- `increment_reinitialize_counter`. HASH_SLOTS is a parameter, so that a test can have few of them.
use coredis.Prelude.{
  ℕ, zero, suc, ◌-◌, ◌/◌, ◌%◌, Bool, true, false, none, some, List, [], ◌∷◌, ◌&&◌, ℕ_discrete,
  if◌then◌else◌, length, ltb, ◌==◌, all_below,
}
use Prim.Native.Nat.{min}
use coredis.Dict.{find}
use coredis.Resp.Errors.{codes}
use coredis.Resp.Value.{same_codes}
use coredis.NodeManager.{
  ManagedNode, name_of, Names, Slots, Manager, values, populate_startup_nodes,
}
use coredis.NodeManager.Discover.{
  cannot_connect, not_covered, assertion, other, Outcome, done, raised, Ranges, SlotsAnswer, ranges,
  redis_error, slots_exception, ConfigAnswer, config, response_error, connection_error,
  config_exception, Servers, Progress, start, note_error, learn_ranges, ◌>>=◌,
}

-- `"yes" in values`
unfoldable pub says_yes : List (List ℕ) → Bool
unfolding same_codes
says_yes [] = false
says_yes (v ∷ vs) = let later = says_yes vs in if same_codes v (codes "yes") then true else later

unfoldable pub is_slot : ℕ → Slots (List ManagedNode) → Bool
is_slot i slots = elim (find ℕ_discrete i slots) [ none ↦ false | some owners ↦ true ]

unfoldable pub keys_below : ℕ → Slots (List ManagedNode) → Bool
keys_below limit [] = true
keys_below limit ((i, owners) ∷ slots) =
    let later = keys_below limit slots in if ltb i limit then later else false

-- `set(tmp_slots.keys()) == HASH_SLOTS_SET`
unfoldable pub covers_all : ℕ → Slots (List ManagedNode) → Bool
unfolding is_slot keys_below all_below
covers_all hash_slots slots =
    all_below (λ i. is_slot i slots) hash_slots && keys_below hash_slots slots

-- `int((len(nodes) / len(replicas)) - 1 if replicas else 0)`; each replica is one of the nodes, so
-- that the quotient is at least 1.
unfoldable pub per_shard : ℕ → ℕ → ℕ
per_shard nodes zero = 0
per_shard nodes (suc replicas) = nodes / suc replicas - 1

abbrev pub reached : Manager → Manager
reached m = record m { startup_nodes_reachable = true }

abbrev pub with_error : List ℕ → ManagedNode → Progress → Progress
with_error err node p = record p {
  startup_node_errors = note_error err (name_of node) p.startup_node_errors;
}

abbrev pub adopt : Progress → Manager → Manager
adopt p m = record m {
  slots = p.tmp_slots;
  nodes = p.nodes_cache;
  replicas_per_shard = per_shard (length p.nodes_cache) (length p.replicas);
  reinitialize_counter = 0;
}

abbrev pub chosen_nodes : Manager → List ManagedNode
chosen_nodes m = if m.nodemanager_follow_cluster then m.startup_nodes else m.orig_startup_nodes

abbrev pub counted_up : Manager → Manager
counted_up m = record m { reinitialize_counter = suc m.reinitialize_counter }

module _ {S E : Type 0} (hash_slots : ℕ) (servers : Servers S E) where
  -- The host of a cluster of one server is empty in its reply.
  unfoldable pub fix_single : Ranges → List ManagedNode → Outcome E Ranges
  fix_single (((min_slot, max_slot), nodes) ∷ []) (startup ∷ []) =
      if min_slot == 0 && max_slot == hash_slots - 1
      then elim nodes [
        | [] ↦ raised assertion
        | n ∷ rest ↦ elim n.host [
          | [] ↦ done (((min_slot, max_slot), record n { host = startup.host } ∷ rest) ∷ [])
          | c ∷ cs ↦ done (((min_slot, max_slot), n ∷ rest) ∷ [])
        ]
      ]
      else raised assertion
  fix_single reply startup_nodes = done reply

  -- `node_require_full_coverage`, for each of the nodes in turn, until one says yes.
  unfoldable pub after_config : (S → Outcome E Bool × S) → ConfigAnswer E × S → Outcome E Bool × S
  unfolding says_yes
  after_config again (config vs, s) = if says_yes vs then (done true, s) else again s
  after_config again (response_error, s) = again s
  after_config again (connection_error, s) = again s
  after_config again (config_exception e, s) = (raised (other e), s)

  unfoldable pub ask_coverage : List ManagedNode → S → Outcome E Bool × S
  ask_coverage [] s = (done false, s)
  ask_coverage (n ∷ ns) s = after_config (λ t. ask_coverage ns t) (servers.config_get n s)

  -- `nodes_cache or self.nodes`
  unfoldable pub cluster_require_full_coverage :
      Names ManagedNode → Manager → S → Outcome E Bool × S
  unfolding values ask_coverage
  cluster_require_full_coverage [] m s = ask_coverage (values m.nodes) s
  cluster_require_full_coverage (n ∷ ns) m s = ask_coverage (values (n ∷ ns)) s

  -- `not self._skip_full_coverage_check and await ...`
  unfoldable pub must_cover : Names ManagedNode → Manager → S → Outcome E Bool × S
  unfolding cluster_require_full_coverage
  must_cover nodes_cache m s =
      if m.skip_full_coverage_check
      then (done false, s)
      else cluster_require_full_coverage nodes_cache m s

  abbrev pub Result : Type 0 → Type 0
  Result A = Outcome E A × Manager × S

  -- The end of a pass: on with `again` unless the slots are covered.
  unfoldable pub after_coverage :
      (Progress → Manager → S → Result Progress)
      → Progress
      → Manager
      → Outcome E Bool × S
      → Result Progress
  unfolding covers_all
  after_coverage again p m (raised e, s) = (raised e, m, s)
  after_coverage again p m (done required, s) =
      let covered = if required then covers_all hash_slots p.tmp_slots else true in
      if covered
      then (done (record p { all_slots_covered = true }), m, s)
      else again (record p { all_slots_covered = false }) m s

  unfoldable pub after_ranges :
      (Progress → Manager → S → Result Progress)
      → ManagedNode
      → Outcome E Progress
      → Manager
      → S
      → Result Progress
  unfolding must_cover after_coverage
  after_ranges again node (raised e) m s = (raised e, m, s)
  after_ranges again node (done p) m s = after_coverage again p m (must_cover p.nodes_cache m s)

  -- A pass of the loop, with what the node answered.
  unfoldable pub after_answer :
      (Progress → Manager → S → Result Progress)
      → ManagedNode
      → Progress
      → Manager
      → SlotsAnswer E × S
      → Result Progress
  unfolding after_ranges learn_ranges fix_single note_error name_of
  after_answer again node p m (redis_error err, s) = again (with_error err node p) m s
  after_answer again node p m (slots_exception e, s) = (raised (other e), m, s)
  after_answer again node p m (ranges reply, s) =
      after_ranges again node
        (fix_single reply m.startup_nodes >>= λ fixed. learn_ranges node fixed p) (reached m) s

  -- `for node in nodes`
  unfoldable pub ask_nodes : List ManagedNode → Progress → Manager → S → Result Progress
  unfolding after_answer
  ask_nodes [] p m s = (done p, m, s)
  ask_nodes (node ∷ nodes) p m s =
      after_answer (λ q n t. ask_nodes nodes q n t) node p m (servers.cluster_slots node s)

  -- What follows the loop.
  unfoldable pub conclude : Result Progress → Result (Unit {0})
  unfolding per_shard populate_startup_nodes
  conclude (raised e, m, s) = (raised e, m, s)
  conclude (done p, m, s) =
      if m.startup_nodes_reachable
      then if p.all_slots_covered
        then (done tt, populate_startup_nodes (adopt p m), s)
        else (raised (not_covered (length p.tmp_slots)), m, s)
      else (raised (cannot_connect p.startup_node_errors), m, s)

  unfoldable pub initialize : Manager → S → Result (Unit {0})
  unfolding ask_nodes conclude
  initialize m s =
      conclude (ask_nodes (chosen_nodes m) start (record m { startup_nodes_reachable = false }) s)

  unfoldable pub after_initialize :
      (Manager → S → Result (Unit {0})) → Result (Unit {0}) → Result (Unit {0})
  after_initialize again (raised e, m, s) = (raised e, m, s)
  after_initialize again (done u, m, s) = again m s

  unfoldable pub count_up : ℕ → Manager → S → Result (Unit {0})
  unfolding initialize after_initialize
  count_up zero m s = (done tt, m, s)
  count_up (suc rounds) m s =
      let rest = count_up rounds (counted_up m) s in
      if suc m.reinitialize_counter % m.reinitialize_steps == 0
      then after_initialize (λ n t. count_up rounds n t) (initialize (counted_up m) s)
      else rest

  unfoldable pub increment_reinitialize_counter : ℕ → Manager → S → Result (Unit {0})
  unfolding count_up
  increment_reinitialize_counter ct m s = count_up (min ct m.reinitialize_steps) m s

-- ===== src/NodeManager/Covered.antt =====
-- The slots that `initialize` of coredis/pool/nodemanager.py covers, and whom a slot is routed to.
use coredis.Prelude.{
  ℕ, ◌<◌, ◌≡◌, refl, sym, ◌∙◌, ap, Bool, true, false, ◌&&◌, some, List, [], ◌∷◌, ℕ_discrete,
  if◌then◌else◌, Bool-cases, Option-cases, inl, inr, at_each,
}
use mathlib.Core.Option
use mathlib.Core.Path.{subst}
use coredis.Dict.{find}
use coredis.Resp.Errors.{codes}
use coredis.NodeManager.{
  ManagedNode, name_of, Names, Slots, Manager, is_primary, first_primary, node_from_slot, values,
  populate_startup_nodes,
}
use coredis.NodeManager.Discover.{
  Outcome, done, raised, Progress, start, SlotsAnswer, ranges, redis_error, slots_exception, config,
  Servers,
}
use coredis.NodeManager.Initialize.{
  must_cover, cluster_require_full_coverage, ask_coverage, after_config, says_yes, is_slot,
  covers_all, after_coverage, after_ranges, after_answer, ask_nodes, initialize, Result, reached,
  chosen_nodes,
}
use coredis.NodeManager.Routed.{has, Owned, owned, Ends}
use coredis.NodeManager.Topology.{ask_nodes-Kept, start-Sound, conclude-done, initialize-AllOwned}

pub first_primary-Owned :
    (nodes : Names ManagedNode) (owners : List ManagedNode)
    → Owned nodes owners
    → (p : ManagedNode) × (first_primary owners ≡ some p)
      × (is_primary p ≡ true)
      × (has (name_of p) nodes ≡ true)
unfolding first_primary
first_primary-Owned nodes [] h = elim h [ ]
first_primary-Owned nodes (p ∷ rs) (owned h k r) = (p, rw h refl, h, k)

both-first : (a b : Bool) → (a && b) ≡ true → a ≡ true
both-first true b h = refl
both-first false b h = cc

is_slot-some :
    (i : ℕ) (slots : Slots (List ManagedNode))
    → is_slot i slots ≡ true
    → (owners : List ManagedNode) × (find ℕ_discrete i slots ≡ some owners)
unfolding is_slot
is_slot-some i slots h = elim (Option-cases (find ℕ_discrete i slots)) [
  | inl e ↦ let never : false ≡ true = rw (e, is_slot) at h in cc
  | inr (owners, e) ↦ (owners, e)
]

module _ {S E : Type 0} (hash_slots : ℕ) (servers : Servers S E)
    (yes_to_all : (n : ManagedNode) (s : S)
      → (t : S) × (servers.config_get n s ≡ (config (codes "yes" ∷ []), t))) where
  abbrev Covering : Progress → Type 0
  Covering p =
      p.all_slots_covered ≡ true
      → (entry : List ℕ × ManagedNode) (rest : Names ManagedNode) → p.nodes_cache ≡ entry ∷ rest
      → covers_all hash_slots p.tmp_slots ≡ true

  must_cover_lem :
      (entry : List ℕ × ManagedNode) (rest cache : Names ManagedNode) (m : Manager) (s : S)
      → m.skip_full_coverage_check ≡ false
      → cache ≡ entry ∷ rest
      → (must_cover hash_slots servers cache m s).0 ≡ done true
  unfolding must_cover cluster_require_full_coverage ask_coverage values after_config says_yes
  must_cover_lem (k, n) rest cache m s skip e =
      let (t, answer) = yes_to_all n s in rw (e, skip, answer) refl

  after_coverage-Covering :
      (again : Progress → Manager → S → Result hash_slots servers Progress) (p : Progress)
      (m : Manager) (r : Outcome E Bool × S)
      → ((q : Progress) (n : Manager) (t : S)
          → Covering q
          → n.skip_full_coverage_check ≡ false
          → Ends Covering (again q n t).0)
      → m.skip_full_coverage_check ≡ false
      → ((entry : List ℕ × ManagedNode) (rest : Names ManagedNode)
          → p.nodes_cache ≡ entry ∷ rest
          → r.0 ≡ done true)
      → Ends Covering (after_coverage hash_slots servers again p m r).0
  unfolding after_coverage
  after_coverage-Covering again p m (raised e, s) f skip h = tt
  after_coverage-Covering again p m (done required, s) f skip h =
      elim (Bool-cases (if required then covers_all hash_slots p.tmp_slots else true)) [
        | inl e ↦ rw e (λ c entry rest k.
            let asked : done required ≡ done true = h entry rest k in
            let is_required : required ≡ true = cc in rw is_required at e)
        | inr e ↦ rw e (f (record p { all_slots_covered = false }) m s (λ c. cc) skip)
      ]

  after_ranges-Covering :
      (again : Progress → Manager → S → Result hash_slots servers Progress) (node : ManagedNode)
      (learned : Outcome E Progress) (m : Manager) (s : S)
      → ((q : Progress) (n : Manager) (t : S)
          → Covering q
          → n.skip_full_coverage_check ≡ false
          → Ends Covering (again q n t).0)
      → m.skip_full_coverage_check ≡ false
      → Ends Covering (after_ranges hash_slots servers again node learned m s).0
  unfolding after_ranges
  after_ranges-Covering again node (raised e) m s f skip = tt
  after_ranges-Covering again node (done p) m s f skip =
      after_coverage-Covering again p m (must_cover hash_slots servers p.nodes_cache m s) f skip
        (λ entry rest k. must_cover_lem entry rest p.nodes_cache m s skip k)

  after_answer-Covering :
      (again : Progress → Manager → S → Result hash_slots servers Progress) (node : ManagedNode)
      (p : Progress) (m : Manager) (r : SlotsAnswer E × S)
      → ((q : Progress) (n : Manager) (t : S)
          → Covering q
          → n.skip_full_coverage_check ≡ false
          → Ends Covering (again q n t).0)
      → m.skip_full_coverage_check ≡ false
      → Covering p
      → Ends Covering (after_answer hash_slots servers again node p m r).0
  unfolding after_answer
  after_answer-Covering again node p m (redis_error err, s) f skip h = f _ m s h skip
  after_answer-Covering again node p m (slots_exception e, s) f skip h = tt
  after_answer-Covering again node p m (ranges reply, s) f skip h =
      after_ranges-Covering again node _ (reached m) s f skip

  ask_nodes-Covering :
      (nodes : List ManagedNode) (p : Progress) (m : Manager) (s : S)
      → m.skip_full_coverage_check ≡ false
      → Covering p
      → Ends Covering (ask_nodes hash_slots servers nodes p m s).0
  unfolding ask_nodes
  ask_nodes-Covering [] p m s skip h = h
  ask_nodes-Covering (node ∷ nodes) p m s skip h =
      after_answer-Covering (ask_nodes hash_slots servers nodes) node p m
        (servers.cluster_slots node s) (λ q n t k g. ask_nodes-Covering nodes q n t g k) skip h

  -- Where the servers require full coverage, each of them, and the check is not skipped, a manager
  -- that `initialize` gave any node routes every slot to a primary that is in its dict of nodes.
  pub initialize-covers :
      (m n : Manager) (s t : S) (entry : List ℕ × ManagedNode) (rest : Names ManagedNode) (i : ℕ)
      → m.skip_full_coverage_check ≡ false
      → initialize hash_slots servers m s ≡ (done tt, n, t)
      → n.nodes ≡ entry ∷ rest
      → i < hash_slots
      → (p : ManagedNode) × (node_from_slot n i ≡ some (some p))
        × (is_primary p ≡ true)
        × (has (name_of p) n.nodes ≡ true)
  unfolding initialize populate_startup_nodes node_from_slot covers_all
  initialize-covers m n s t entry rest i skip h nonempty inside =
      let m' : Manager = record m { startup_nodes_reachable = false } in
      let r = ask_nodes hash_slots servers (chosen_nodes m) start m' s in
      let (p, o, u, e, sound, covered, same) =
        conclude-done hash_slots servers m' n t r
          (ask_nodes-Kept hash_slots servers (chosen_nodes m) start m' s start-Sound) h in
      let ends : Ends Covering r.0 =
        ask_nodes-Covering (chosen_nodes m) start m' s skip (λ c. cc) in
      let nodes_same : p.nodes_cache ≡ n.nodes = ap (λ (x : Manager). x.nodes) same in
      let slots_same : p.tmp_slots ≡ n.slots = ap (λ (x : Manager). x.slots) same in
      let covers : covers_all hash_slots p.tmp_slots ≡ true =
        (subst (λ x. Ends Covering x.0) e ends) covered entry rest (nodes_same ∙ nonempty) in
      let (owners, entry_of) =
        is_slot-some i p.tmp_slots
          (at_each (λ j. is_slot j p.tmp_slots) hash_slots i inside (both-first _ _ covers)) in
      let (all_owned, _, _) = initialize-AllOwned hash_slots servers m n s t h in
      let held : find ℕ_discrete i n.slots ≡ some owners =
        ap (λ x. find ℕ_discrete i x) (sym slots_same) ∙ entry_of in
      let (owner, first, rank, known) =
        first_primary-Owned n.nodes owners (all_owned i owners held) in
      (owner, ap (Option.map first_primary) held ∙ ap some first, rank, known)

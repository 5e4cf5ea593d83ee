-- ===== src/NodeManager/Topology.antt =====
-- What `initialize` of coredis/pool/nodemanager.py leaves behind.
use coredis.Prelude.{
  ℕ, ◌≡◌, refl, ◌∙◌, ap, Bool, true, false, List, [], ◌∷◌, if◌then◌else◌, Bool-cases, inl, inr,
}
use mathlib.Core.Path.{subst}
use coredis.Dict.{find}
use coredis.NodeManager.{ManagedNode, Manager, values, populate_startup_nodes}
use coredis.NodeManager.Discover.{
  Exception, Outcome, done, raised, ◌>>=◌, Ranges, Progress, start, SlotsAnswer, ranges,
  redis_error, slots_exception, Servers, learn_ranges,
}
use coredis.NodeManager.Initialize.{
  fix_single, must_cover, covers_all, after_coverage, after_ranges, after_answer, ask_nodes,
  conclude, initialize, Result, reached, chosen_nodes, adopt,
}
use coredis.NodeManager.Routed.{AllOwned, Sound, Ends, learn_ranges-Sound}

-- What the loop may change of a manager.
abbrev pub Same : Manager → Manager → Type 0
Same m n = n ≡ record m { startup_nodes_reachable = n.startup_nodes_reachable }

Same-trans : (m n o : Manager) → Same m n → Same n o → Same m o
Same-trans m n o h k =
    let widen = λ (x : Manager). record x { startup_nodes_reachable = o.startup_nodes_reachable } in
    k ∙ ap widen h

pub start-Sound : Sound start
unfolding find
start-Sound i owners e = cc

module _ {S E : Type 0} where
  branches-raised :
      (a b : Bool) (x o n : Manager) (s t : S) (c d e : Exception E)
      → ◌≡◌ {A = Outcome E (Unit {0}) × Manager × S}
          (if a then if b then (done tt, x, s) else (raised c, o, s) else (raised d, o, s))
          (raised e, n, t)
      → o ≡ n
  branches-raised true true x o n s t c d e h =
      let never : done tt ≡ raised e = ap (λ r. r.0) h in cc
  branches-raised true false x o n s t c d e h = ap (λ r. r.1) h
  branches-raised false b x o n s t c d e h = ap (λ r. r.1) h

  branches-done :
      (a b : Bool) (x o n : Manager) (s t : S) (c d : Exception E)
      → ◌≡◌ {A = Outcome E (Unit {0}) × Manager × S}
          (if a then if b then (done tt, x, s) else (raised c, o, s) else (raised d, o, s))
          (done tt, n, t)
      → (b ≡ true) × (x ≡ n)
  branches-done true true x o n s t c d h = (refl, ap (λ r. r.1) h)
  branches-done true false x o n s t c d h = let never : raised c ≡ done tt = ap (λ r. r.0) h in cc
  branches-done false b x o n s t c d h = let never : raised d ≡ done tt = ap (λ r. r.0) h in cc

module _ {S E : Type 0} (hash_slots : ℕ) (servers : Servers S E) where
  abbrev pub Kept : Manager → Result hash_slots servers Progress → Type 0
  Kept m r = Ends Sound r.0 × Same m r.1

  after_coverage-Kept :
      (again : Progress → Manager → S → Result hash_slots servers Progress) (p : Progress)
      (m : Manager) (r : Outcome E Bool × S)
      → ((q : Progress) (n : Manager) (t : S) → Sound q → Kept n (again q n t))
      → Sound p
      → Kept m (after_coverage hash_slots servers again p m r)
  unfolding after_coverage
  after_coverage-Kept again p m (raised e, s) f h = (tt, refl)
  after_coverage-Kept again p m (done required, s) f h =
      elim (Bool-cases (if required then covers_all hash_slots p.tmp_slots else true)) [
        | inl e ↦ rw e (h, refl)
        | inr e ↦ rw e (f (record p { all_slots_covered = false }) m s h)
      ]

  learned-Sound :
      (fixed : Outcome E Ranges) (node : ManagedNode) (p : Progress)
      → Sound p
      → Ends Sound (fixed >>= λ reply. learn_ranges node reply p)
  learned-Sound (done reply) node p h = learn_ranges-Sound E node reply p h
  learned-Sound (raised e) node p h = tt

  after_ranges-Kept :
      (again : Progress → Manager → S → Result hash_slots servers Progress) (node : ManagedNode)
      (learned : Outcome E Progress) (m : Manager) (s : S)
      → ((q : Progress) (n : Manager) (t : S) → Sound q → Kept n (again q n t))
      → Ends Sound learned
      → Kept m (after_ranges hash_slots servers again node learned (reached m) s)
  unfolding after_ranges
  after_ranges-Kept again node (raised e) m s f h = (tt, refl)
  after_ranges-Kept again node (done p) m s f h =
      let (sound, same) =
        after_coverage-Kept again p (reached m)
          (must_cover hash_slots servers p.nodes_cache (reached m) s) f h in
      (sound, Same-trans m (reached m) _ refl same)

  after_answer-Kept :
      (again : Progress → Manager → S → Result hash_slots servers Progress) (node : ManagedNode)
      (p : Progress) (m : Manager) (r : SlotsAnswer E × S)
      → ((q : Progress) (n : Manager) (t : S) → Sound q → Kept n (again q n t))
      → Sound p
      → Kept m (after_answer hash_slots servers again node p m r)
  unfolding after_answer
  after_answer-Kept again node p m (redis_error err, s) f h = f _ m s h
  after_answer-Kept again node p m (slots_exception e, s) f h = (tt, refl)
  after_answer-Kept again node p m (ranges reply, s) f h =
      after_ranges-Kept again node
        (fix_single hash_slots servers reply m.startup_nodes >>= λ fixed. learn_ranges node fixed p)
        m s f (learned-Sound (fix_single hash_slots servers reply m.startup_nodes) node p h)

  pub ask_nodes-Kept :
      (nodes : List ManagedNode) (p : Progress) (m : Manager) (s : S)
      → Sound p
      → Kept m (ask_nodes hash_slots servers nodes p m s)
  unfolding ask_nodes
  ask_nodes-Kept [] p m s h = (h, refl)
  ask_nodes-Kept (node ∷ nodes) p m s h =
      after_answer-Kept (ask_nodes hash_slots servers nodes) node p m (servers.cluster_slots node s)
        (λ q n t k. ask_nodes-Kept nodes q n t k) h

  conclude-raised :
      (m : Manager) (e : Exception E) (n : Manager) (t : S) (r : Result hash_slots servers Progress)
      → Kept m r
      → conclude hash_slots servers r ≡ (raised e, n, t)
      → Same m n
  unfolding conclude
  conclude-raised m e n t (raised d, o, s) (u, h) k = subst (λ x. Same m x) (ap (λ r. r.1) k) h
  conclude-raised m e n t (done p, o, s) (u, h) k =
      subst (λ x. Same m x)
        (branches-raised o.startup_nodes_reachable p.all_slots_covered _ o n s t _ _ e k) h

  pub conclude-done :
      (m n : Manager) (t : S) (r : Result hash_slots servers Progress)
      → Kept m r
      → conclude hash_slots servers r ≡ (done tt, n, t)
      → (p : Progress) × (o : Manager) × (s : S) × (r ≡ (done p, o, s))
        × Sound p
        × (p.all_slots_covered ≡ true)
        × (populate_startup_nodes (adopt p o) ≡ n)
  unfolding conclude
  conclude-done m n t (raised d, o, s) (u, h) k =
      let never : raised d ≡ done tt = ap (λ r. r.0) k in cc
  conclude-done m n t (done p, o, s) (sound, h) k =
      let (covered, same) =
        branches-done o.startup_nodes_reachable p.all_slots_covered _ o n s t _ _ k in
      (p, o, s, refl, sound, covered, same)

  -- Where `initialize` raises, the topology that was known before it stays: no field of the manager
  -- has changed but `startup_nodes_reachable`.
  pub initialize-raised :
      (m n : Manager) (s t : S) (e : Exception E)
      → initialize hash_slots servers m s ≡ (raised e, n, t)
      → n ≡ record m { startup_nodes_reachable = n.startup_nodes_reachable }
  unfolding initialize
  initialize-raised m n s t e h =
      let m' : Manager = record m { startup_nodes_reachable = false } in
      Same-trans m m' n refl (
        conclude-raised m' e n t (ask_nodes hash_slots servers (chosen_nodes m) start m' s)
          (ask_nodes-Kept (chosen_nodes m) start m' s start-Sound) h)

  -- Where `initialize` succeeds, the nodes of every slot are a primary and then replicas, each of
  -- them in the dict of nodes; the startup nodes are the nodes of the dict, and the counter is 0.
  pub initialize-AllOwned :
      (m n : Manager) (s t : S)
      → initialize hash_slots servers m s ≡ (done tt, n, t)
      → AllOwned n.nodes n.slots × (n.startup_nodes ≡ values n.nodes) × (n.reinitialize_counter ≡ 0)
  unfolding initialize populate_startup_nodes
  initialize-AllOwned m n s t h =
      let m' : Manager = record m { startup_nodes_reachable = false } in
      let (p, o, u, e, sound, covered, same) =
        conclude-done m' n t (ask_nodes hash_slots servers (chosen_nodes m) start m' s)
          (ask_nodes-Kept (chosen_nodes m) start m' s start-Sound) h in
      subst
        (λ (x : Manager).
          AllOwned x.nodes x.slots
          × (x.startup_nodes ≡ values x.nodes)
          × (x.reinitialize_counter ≡ 0))
        same (sound, refl, refl)

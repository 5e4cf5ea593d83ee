-- ===== src/NodeManager/Counter.antt =====
-- When `increment_reinitialize_counter` of coredis/pool/nodemanager.py initializes the manager.
use Prim.Native.Nat.{min}
use native.Mathlib.Nat.{mod_self, mod-eq_of_lt}
use coredis.Prelude.{ℕ, zero, suc, ◌+◌, ◌%◌, ◌≤◌, ◌≡◌, refl, true, false, ◌==◌, arith}
use coredis.NodeManager.{Manager}
use coredis.NodeManager.Discover.{Servers}
use coredis.NodeManager.Initialize.{
  initialize, counted_up, after_initialize, count_up, increment_reinitialize_counter,
}

never_due : (c steps k : ℕ) → c + suc (suc k) ≡ steps → (suc c % steps == 0) ≡ false
never_due c steps k h =
    let rest : suc c % steps ≡ suc c = mod-eq_of_lt (omega arith) in rw rest (ground arith)

due : (c steps : ℕ) → c + 1 ≡ steps → (suc c % steps == 0) ≡ true
due c steps h =
    let full : suc c ≡ steps = omega arith in
    let rest : suc c % steps ≡ 0 = rw full (mod_self steps) in rw rest refl

module _ {S E : Type 0} (hash_slots : ℕ) (servers : Servers S E) where
  count_up-reaches :
      (k more rounds : ℕ) (m : Manager) (s : S)
      → m.reinitialize_counter + suc k ≡ m.reinitialize_steps
      → rounds ≡ suc k + more
      → count_up hash_slots servers rounds m s
        ≡ after_initialize hash_slots servers
            (λ n t. count_up hash_slots servers more n t)
            (initialize hash_slots servers
              (record m { reinitialize_counter = m.reinitialize_steps })
              s)
  unfolding count_up
  count_up-reaches k more zero m s h e = absurd (omega arith)
  count_up-reaches zero more (suc r) m s h e =
      let last : r ≡ more = omega arith in
      let full : suc m.reinitialize_counter ≡ m.reinitialize_steps = omega arith in
      rw (due m.reinitialize_counter m.reinitialize_steps (omega arith), last, full) refl
  count_up-reaches (suc k) more (suc r) m s h e =
      rw (never_due m.reinitialize_counter m.reinitialize_steps k h)
        (count_up-reaches k more r (counted_up m) s (omega arith) (omega arith))

  -- Counting up by at least as much as is missing to `reinitialize_steps`, and by no more than these
  -- steps, initializes the manager when they are reached, and goes on with what is left.
  pub increment_reinitialize_counter-initialize :
      (ct missing more : ℕ) (m : Manager) (s : S)
      → m.reinitialize_counter + suc missing ≡ m.reinitialize_steps
      → ct ≡ suc missing + more
      → ct ≤ m.reinitialize_steps
      → increment_reinitialize_counter hash_slots servers ct m s
        ≡ after_initialize hash_slots servers
            (λ n t. count_up hash_slots servers more n t)
            (initialize hash_slots servers
              (record m { reinitialize_counter = m.reinitialize_steps })
              s)
  unfolding increment_reinitialize_counter
  increment_reinitialize_counter-initialize ct missing more m s h e below =
      let rounds : min ct m.reinitialize_steps ≡ ct = omega arith in
      rw rounds (count_up-reaches missing more ct m s h e)

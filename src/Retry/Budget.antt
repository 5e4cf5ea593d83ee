-- ===== src/Retry/Budget.antt =====
-- How often `CompositeRetryPolicy.call_with_retries` of coredis/retry.py tries.
use coredis.Prelude.{
  ℕ, zero, suc, ◌<◌, ◌≤◌, ◌≡◌, refl, sym, ap, ◌∙◌, Bool-cases, Option, none, some, arith, inl, inr,
}
use coredis.Retry.{Awaited, returned, failed, Ended, then_await}
use coredis.Retry.Composite.{
  Policy, Composite, Counts, Round, ended, again, choose, wait, conclude, on_exception, after_try,
  round, resume, loop, start_counts, budget, call_with_retries, choose-budget,
}

module _ {S R E : Type 0} (call : Composite S R E) where
  -- So many passes that go on.
  pub data Rounds : ℕ → Counts S E → S → Counts S E → S → Type 0 where
    stop : (counts : Counts S E) (s : S) → Rounds 0 counts s counts s
    more :
        (n : ℕ) (c d e : Counts S E) (s t u : S)
        → round call c s ≡ again d t
        → Rounds n d t e u
        → Rounds (suc n) c s e u

  conclude-again :
      (e : E) (chosen : Option (Policy S E × ℕ)) (charged d : Counts S E)
      (r : Awaited (Unit {0}) E × S) (t : S)
      → conclude call e chosen charged r ≡ again d t
      → (p : Policy S E × ℕ) × (chosen ≡ some p) × (charged ≡ d)
  unfolding conclude
  conclude-again e chosen charged d (failed f, s) t h = cc
  conclude-again e none charged d (returned u, s) t h = cc
  conclude-again e (some p) charged d (returned u, s) t h = (p, refl, cc)

  on_exception-budget :
      (e : E) (c d : Counts S E) (s t : S)
      → on_exception call c e s ≡ again d t
      → suc (budget d) ≡ budget c
  unfolding on_exception
  on_exception-budget e c d s t h =
      let (p, chosen, charged) =
        conclude-again e (choose e c).0 (choose e c).1 d
          (then_await (wait call (choose e c).0 s) (call.failure_hook e)) t h in
      ap (λ counts. suc (budget counts)) (sym charged) ∙ choose-budget e c chosen

  after_try-budget :
      (c d : Counts S E) (x : Awaited R E × S) (t : S)
      → after_try call c x ≡ again d t
      → suc (budget d) ≡ budget c
  unfolding after_try
  after_try-budget c d (returned r, s) t h = cc
  after_try-budget c d (failed e, s) t h = elim (Bool-cases (call.is_exception e)) [
    | inl b ↦ on_exception-budget e c d s t (rw b at h)
    | inr b ↦ let never : ended _ s ≡ again d t = rw b at h in cc
  ]

  round-budget :
      (c d : Counts S E) (s t : S) → round call c s ≡ again d t → suc (budget d) ≡ budget c
  unfolding round
  round-budget c d s t h = after_try-budget c d (then_await (call.before_hook s) call.func) t h

  -- A call ends with the pass that ends it, after a number of passes that went on.
  abbrev Ends : ℕ → Counts S E → S → Option (Ended R E × S) → Type 0
  Ends limit c s outcome =
      (n : ℕ) × (d : Counts S E) × (t : S) × (end : Ended R E) × (u : S) × Rounds n c s d t
      × (round call d t ≡ ended end u)
      × (outcome ≡ some (end, u))
      × (n ≤ limit)

  resume-Ends :
      (next : Counts S E → S → Option (Ended R E × S)) (c : Counts S E) (s : S) (x : Round S R E)
      → round call c s ≡ x
      → ((d : Counts S E) (t : S) → suc (budget d) ≡ budget c → Ends (budget d) d t (next d t))
      → Ends (budget c) c s (resume call next x)
  unfolding resume
  resume-Ends next c s (ended end u) h k = (0, c, s, end, u, stop c s, h, refl, omega arith)
  resume-Ends next c s (again d t) h k =
      let less = round-budget c d s t h in
      let (n, f, v, end, u, rounds, ends, e, below) = k d t less in
      (suc n, f, v, end, u, more n c d f s t v h rounds, ends, e, omega (arith, below, less))

  loop-Ends :
      (fuel : ℕ) (c : Counts S E) (s : S)
      → budget c < fuel
      → Ends (budget c) c s (loop call fuel c s)
  unfolding loop
  loop-Ends zero c s h = absurd (omega arith)
  loop-Ends (suc fuel) c s h =
      resume-Ends (loop call fuel) c s (round call c s) refl
        (λ d t e. loop-Ends fuel d t (omega (arith, h, e)))

  -- A call ends: after at most as many passes that go on as the policies have retries together, with a pass that does
  -- not go on, in whose value or exception.
  pub call_with_retries-Ends :
      (s : S)
      → (n : ℕ) × (d : Counts S E) × (t : S) × (end : Ended R E) × (u : S) × Rounds n
          (start_counts call.policies)
          s
          d
          t
        × (round call d t ≡ ended end u)
        × (call_with_retries call s ≡ some (end, u))
        × (n ≤ budget (start_counts call.policies))
  unfolding call_with_retries
  call_with_retries-Ends s =
      let start = start_counts call.policies in loop-Ends (suc (budget start)) start s (omega arith)

-- ===== src/Retry/Attempts.antt =====
-- Which attempts a call makes, and how it ends.
use mathlib.Core.Path.{subst}
use coredis.Prelude.{
  ℕ, zero, suc, ◌+◌, ◌<◌, ◌≡◌, refl, ap, sym, ◌∙◌, ◌⊎◌, inl, inr, true, false, Bool-cases, Option,
  none, some, arith,
}
use coredis.Prelude.Int.{pos}
use coredis.Retry.{
  Awaited, returned, failed, Ended, result, raised, Call, attempt, give_up, after_attempt, attempts,
  rounds, call_with_retries,
}

module _ {S R E : Type 0} (call : Call S R E) where
  -- Every attempt from one number up to another has failed with an exception that is retried, and
  -- the failure hook has run after each; with the state and the last error before and after.
  pub data Retried : ℕ → S → Option E → ℕ → S → Option E → Type 0 where
    started : (n : ℕ) (s : S) (l : Option E) → Retried n s l n s l
    again :
        (n m : ℕ) (s t u : S) (l k : Option E) (e : E)
        → attempt call n s ≡ (failed e, t)
        → call.retryable e ≡ true
        → Retried (suc n) (call.failure_hook e t) (some e) m u k
        → Retried n s l m u k

  -- The attempt that ends the call.
  pub Finishes : ℕ → S → Ended R E × S → Type 0
  Finishes n s end =
      ((r : R) × (t : S) × (attempt call n s ≡ (returned r, t)) × (end ≡ (result r, t)))
      ⊎ ((e : E) × (t : S) × (attempt call n s ≡ (failed e, t))
          × (call.retryable e ≡ false)
          × (end ≡ (raised e, t)))

  Outcome : ℕ → ℕ → Option E → S → Ended R E × S → Type 0
  Outcome left n l s end =
      ((m : ℕ) × (t : S) × (k : Option E) × (m < n + left) × Retried n s l m t k × Finishes m t end)
      ⊎ ((t : S) × (k : Option E) × Retried n s l (n + left) t k × (end ≡ (give_up call k, t)))

  pair-cases :
      (x : Awaited R E × S)
      → ((r : R) × (t : S) × (x ≡ (returned r, t))) ⊎ ((e : E) × (t : S) × (x ≡ (failed e, t)))
  pair-cases (returned r, t) = inl (r, t, refl)
  pair-cases (failed e, t) = inr (e, t, refl)

  after_failure :
      (next : Option E → S → Ended R E × S) (n : ℕ) (s t : S) (e : E)
      → attempt call n s ≡ (failed e, t)
      → call.retryable e ≡ true
      → after_attempt call next (attempt call n s) ≡ next (some e) (call.failure_hook e t)
  unfolding after_attempt
  after_failure next n s t e h f = rw (h, f) refl

  after_return :
      (next : Option E → S → Ended R E × S) (n : ℕ) (s t : S) (r : R)
      → attempt call n s ≡ (returned r, t)
      → after_attempt call next (attempt call n s) ≡ (result r, t)
  unfolding after_attempt
  after_return next n s t r h = rw h refl

  after_refusal :
      (next : Option E → S → Ended R E × S) (n : ℕ) (s t : S) (e : E)
      → attempt call n s ≡ (failed e, t)
      → call.retryable e ≡ false
      → after_attempt call next (attempt call n s) ≡ (raised e, t)
  unfolding after_attempt
  after_refusal next n s t e h f = rw (h, f) refl

  goes_on :
      (left n : ℕ) (s t : S) (l k : Option E) (e : E) (end : Ended R E × S)
      → attempt call n s ≡ (failed e, t)
      → call.retryable e ≡ true
      → Outcome left (suc n) (some e) (call.failure_hook e t) end
      → Outcome (suc left) n l s end
  unfolding Outcome
  goes_on left n s t l k e end failed_so f o = elim o [
    | inl (m, u, j, small, before, finish) ↦
        inl (m, u, j, omega arith, again n m s t u l j e failed_so f before, finish)
    | inr (u, j, before, ends) ↦
        let same : suc n + left ≡ n + suc left = omega arith in
        inr (
          u,
          j,
          subst (λ i. Retried n s l i u j) same
              (again n (suc n + left) s t u l j e failed_so f before),
          ends,
        )
  ]

  attempts-Outcome :
      (left n : ℕ) (l : Option E) (s : S) → Outcome left n l s (attempts call left n l s)
  unfolding Outcome Finishes attempts
  attempts-Outcome zero n l s =
      let none_left : n ≡ n + 0 = omega arith in
      inr (s, l, subst (λ i. Retried n s l i s l) none_left (started n s l), refl)
  attempts-Outcome (suc left) n l s = elim (pair-cases (attempt call n s)) [
    | inl (r, t, e) ↦
        inl (n, s, l, omega arith, started n s l, inl (r, t, e, after_return _ n s t r e))
    | inr (x, t, e) ↦ elim (Bool-cases (call.retryable x)) [
      | inr f ↦
          inl (n, s, l, omega arith, started n s l, inr (x, t, e, f, after_refusal _ n s t x e f))
      | inl f ↦
          let rest = attempts-Outcome left (suc n) (some x) (call.failure_hook x t) in
          let same : after_attempt call (λ k u. attempts call left (suc n) k u) (attempt call n s)
              ≡ attempts call left (suc n) (some x) (call.failure_hook x t) =
            after_failure (λ k u. attempts call left (suc n) k u) n s t x e f in
          subst (Outcome (suc left) n l s) (sym same) (goes_on left n s t l l x _ e f rest)
    ]
  ]

  last_is_some :
      (n m : ℕ) (s t : S) (l k : Option E)
      → Retried n s l m t k
      → ((e : E) × (l ≡ some e)) ⊎ (n < m)
      → (e : E) × (k ≡ some e)
  last_is_some n m s t l k (started i u j) (inl found) = found
  last_is_some n m s t l k (started i u j) (inr less) = absurd (omega arith)
  last_is_some n m s t l k (again i j u v w p q e h f rest) c =
      last_is_some (suc i) j (call.failure_hook e v) w (some e) q rest (inl (e, refl))

  -- A call with `retries` of at least 0 makes its attempts one after the other, each after one that
  -- failed with an exception that is retried; it ends with the first that returns or that fails with
  -- another exception, or else with the error of the last of exactly `retries + 1` attempts.
  pub call_with_retries-ends :
      (n : ℕ) (s : S)
      → call.retries ≡ pos n
      → ((m : ℕ) × (t : S) × (k : Option E) × (m < suc n)
          × Retried 0 s none m t k
          × Finishes m t (call_with_retries call s))
        ⊎ ((t : S) × (e : E) × Retried 0 s none (suc n) t (some e)
            × (call_with_retries call s ≡ (raised e, t)))
  unfolding call_with_retries Outcome give_up rounds
  call_with_retries-ends n s h =
      let all : Outcome (suc n) 0 none s (call_with_retries call s) =
        subst (Outcome (suc n) 0 none s) (ap (λ z. attempts call (rounds z) 0 none s) (sym h))
          (attempts-Outcome (suc n) 0 none s) in
      elim all [
        | inl (m, t, k, small, before, finish) ↦ inl (m, t, k, omega arith, before, finish)
        | inr (t, k, before, ends) ↦
            let same : 0 + suc n ≡ suc n = omega arith in
            let (e, f) = last_is_some 0 (0 + suc n) s t none k before (inr (omega arith)) in
            inr (
              t,
              e,
              subst (λ j. Retried 0 s none (suc n) t j) f
                  (subst (λ i. Retried 0 s none i t k) same before),
              ends ∙ ap (λ j. (give_up call j, t)) f,
            )
      ]

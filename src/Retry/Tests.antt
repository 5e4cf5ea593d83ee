-- ===== src/Retry/Tests.antt =====
-- A call that fails twice and is tried again.
use coredis.Prelude.{
  ℕ, ◌+◌, ◌≡◌, ◌<◌, ◌≤◌, ◌==◌, [], ◌∷◌, ◌⊎◌, refl, true, Option, none, some, ltb, if◌then◌else◌,
}
use coredis.Prelude.Int.{pos}
use coredis.Retry.{
  Ended, returned, failed, Call, raised, result, call_with_retries, attempt, attempts,
  after_attempt,
}
use coredis.Retry.Composite
use coredis.Retry.Composite.{Composite, Counts}
use coredis.Retry.Budget.{Rounds, call_with_retries-Ends}
use coredis.Retry.Attempts.{Retried, Finishes, call_with_retries-ends}

-- The state counts the calls of `func`, which returns from the third on.
abbrev third_time : Call ℕ ℕ ℕ
third_time = record {
  retries = pos 3;
  retryable = λ e. true;
  delay = λ n s. (returned tt, s);
  before_hook = λ s. (returned tt, s);
  func = λ s. if ltb s 2 then (failed s, s + 1) else (returned s, s + 1);
  failure_hook = λ e s. s;
}

third_time_returns : call_with_retries third_time 0 ≡ (result 2, 3)
unfolding call_with_retries attempts attempt after_attempt
third_time_returns = refl

call_with_retries-ends_example :
    ((m : ℕ) × (t : ℕ) × (k : Option ℕ) × (m < 4)
      × Retried third_time 0 0 none m t k
      × Finishes third_time m t (call_with_retries third_time 0))
    ⊎ ((t : ℕ) × (e : ℕ) × Retried third_time 0 0 none 4 t (some e)
        × (call_with_retries third_time 0 ≡ (raised e, t)))
call_with_retries-ends_example = call_with_retries-ends third_time 3 0 refl

-- One retry for the error 0, and one for any error.
abbrev composite : Composite ℕ ℕ ℕ
composite = record {
  policies =
      record { will_retry = λ e. e == 0; retries = pos 1; delay = λ n s. (returned tt, s) }
      ∷ record { will_retry = λ e. true; retries = pos 1; delay = λ n s. (returned tt, s) }
      ∷ [];
  is_exception = λ e. true;
  before_hook = λ s. (returned tt, s);
  func = third_time.func;
  failure_hook = λ e s. (returned tt, s);
}

composite_returns : Composite.call_with_retries composite 0 ≡ some (result 2, 3)
unfolding Composite.call_with_retries Composite.start_counts Composite.budget Composite.round
    Composite.attempts_left
composite_returns = refl

call_with_retries-Ends_example :
    (n : ℕ) × (d : Counts ℕ ℕ) × (t : ℕ) × (end : Ended ℕ ℕ) × (u : ℕ) × Rounds composite n
      (Composite.start_counts composite.policies)
      0
      d
      t
    × (Composite.round composite d t ≡ Composite.ended end u)
    × (Composite.call_with_retries composite 0 ≡ some (end, u))
    × (n ≤ Composite.budget (Composite.start_counts composite.policies))
call_with_retries-Ends_example = call_with_retries-Ends composite 0

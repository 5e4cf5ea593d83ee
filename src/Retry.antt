-- ===== src/Retry.antt =====
-- `RetryPolicy.call_with_retries` of coredis/retry.py, and the delays of the policies.
pub mod Attempts
pub mod Composite
pub mod Budget
pub mod Tests
use coredis.Prelude.{
  ℕ, zero, suc, ◌+◌, ◌*◌, ◌^◌, Bool, true, false, Option, none, some, List, [], ◌∷◌, if◌then◌else◌,
  ltb,
}
use coredis.Prelude.Int.{ℤ, pos, negsuc}

-- How awaiting a coroutine ends.
pub data Awaited (R E : Type 0) : Type 0 where
  returned : R → Awaited R E
  failed : E → Awaited R E

-- How a call ends; `assertion` is `assert False`.
pub data Ended (R E : Type 0) : Type 0 where
  result : R → Ended R E
  raised : E → Ended R E
  assertion : Ended R E

-- The arguments of a call and the fields of the policy. `S` is whatever the coroutines change. A
-- hook that is not given is one that does nothing. An exception of the failure hook is swallowed, so
-- only what it changes is kept.
pub record Call (S R E : Type 0) : Type 0 where
  pub retries : ℤ
  pub retryable : E → Bool
  pub delay : ℕ → S → Awaited (Unit {0}) E × S
  pub before_hook : S → Awaited (Unit {0}) E × S
  pub func : S → Awaited R E × S
  pub failure_hook : E → S → S

-- A mapping of exception types: the hook of the first one that the exception is an instance of.
unfoldable pub first_hook : {S E : Type 0} → List ((E → Bool) × (E → S → S)) → E → S → S
first_hook [] e s = s
first_hook ((is_instance, hook) ∷ hooks) e s =
    if is_instance e then hook e s else first_hook hooks e s

-- `ConstantRetryPolicy.delay` and `ExponentialBackoffRetryPolicy.delay`: how long they sleep, none at
-- the first attempt.
unfoldable pub constant_delay : ℕ → ℕ → ℕ
constant_delay delay attempt_number = if ltb 0 attempt_number then delay else 0

unfoldable pub exponential_delay : ℕ → ℕ → ℕ
exponential_delay initial_delay attempt_number =
    if ltb 0 attempt_number then 2 ^ attempt_number * initial_delay else 0

-- `range(self.retries + 1)`
unfoldable pub rounds : ℤ → ℕ
rounds (pos n) = suc n
rounds (negsuc n) = 0

-- `x` and then, if it did not fail, `next`
unfoldable pub then_await :
    {S E A : Type 0} → Awaited (Unit {0}) E × S → (S → Awaited A E × S) → Awaited A E × S
then_await (returned u, s) next = next s
then_await (failed e, s) next = (failed e, s)

module _ {S R E : Type 0} (call : Call S R E) where
  -- The `try` block.
  unfoldable pub attempt : ℕ → S → Awaited R E × S
  unfolding then_await
  attempt n s = then_await (call.delay n s) (λ t. then_await (call.before_hook t) call.func)

  -- `if last_error: raise last_error` and `assert False`
  unfoldable pub give_up : Option E → Ended R E
  give_up none = assertion
  give_up (some e) = raised e

  -- What the attempt of number `n` leads to; `again` is the rest of the loop.
  unfoldable pub after_attempt : (Option E → S → Ended R E × S) → Awaited R E × S → Ended R E × S
  after_attempt again (returned r, s) = (result r, s)
  after_attempt again (failed e, s) =
      if call.retryable e then again (some e) (call.failure_hook e s) else (raised e, s)

  -- The loop, with the attempts that are left, the number of the next one, and `last_error`.
  unfoldable pub attempts : ℕ → ℕ → Option E → S → Ended R E × S
  attempts zero n last_error s = (give_up last_error, s)
  attempts (suc left) n last_error s =
      after_attempt (λ e t. attempts left (suc n) e t) (attempt n s)

  unfoldable pub call_with_retries : S → Ended R E × S
  unfolding rounds
  call_with_retries s = attempts (rounds call.retries) 0 none s

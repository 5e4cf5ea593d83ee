-- ===== src/Retry/Composite.antt =====
-- `CompositeRetryPolicy.call_with_retries` of coredis/retry.py.
use coredis.Prelude.{
  ℕ, zero, suc, ◌+◌, ◌-◌, ◌≡◌, Bool, true, false, ◌&&◌, Option, none, some, List, [], ◌∷◌,
  if◌then◌else◌, ltb, arith, Bool-cases, inl, inr,
}
use coredis.Prelude.Int.{ℤ, pos, negsuc}
use coredis.Retry.{Awaited, returned, failed, Ended, result, raised, then_await}

-- A policy of the set, as the composite uses it.
pub record Policy (S E : Type 0) : Type 0 where
  pub will_retry : E → Bool
  pub retries : ℤ
  pub delay : ℕ → S → Awaited (Unit {0}) E × S

-- The arguments of a call; `is_exception` tells the exceptions that `except Exception` catches.
pub record Composite (S R E : Type 0) : Type 0 where
  pub policies : List (Policy S E)
  pub is_exception : E → Bool
  pub before_hook : S → Awaited (Unit {0}) E × S
  pub func : S → Awaited R E × S
  pub failure_hook : E → S → Awaited (Unit {0}) E × S

-- `add_retry_policy`, to a set whose members are told apart by `is_same`; the order of the set is the list's.
unfoldable pub add_retry_policy :
    {S E : Type 0}
    → (Policy S E → Policy S E → Bool)
    → Policy S E
    → List (Policy S E)
    → List (Policy S E)
add_retry_policy is_same p [] = p ∷ []
add_retry_policy is_same p (q ∷ qs) =
    let more = add_retry_policy is_same p qs in if is_same p q then q ∷ qs else q ∷ more

-- A mapping of exception types: the hook of the first one that the exception is an instance of.
unfoldable pub mapped_hook :
    {S E : Type 0}
    → List ((E → Bool) × (E → S → Awaited (Unit {0}) E × S))
    → E
    → S
    → Awaited (Unit {0}) E × S
mapped_hook [] e s = (returned tt, s)
mapped_hook ((is_instance, hook) ∷ hooks) e s =
    if is_instance e then hook e s else mapped_hook hooks e s

-- `attempts[policy] < policy.retries`
unfoldable pub is_left : ℕ → ℤ → Bool
is_left n (pos m) = ltb n m
is_left n (negsuc m) = false

-- `attempts`, in the order of the dict
abbrev pub Counts : Type 0 → Type 0 → Type 0
Counts S E = List (Policy S E × ℕ)

unfoldable pub start_counts : {S E : Type 0} → List (Policy S E) → Counts S E
start_counts [] = []
start_counts (p ∷ ps) = (p, 0) ∷ start_counts ps

-- The first policy that retries and has attempts left, with the number of its attempt, and the counts with it.
unfoldable pub choose : {S E : Type 0} → E → Counts S E → Option (Policy S E × ℕ) × Counts S E
unfolding is_left
choose e [] = (none, [])
choose e ((p, n) ∷ rest) =
    let (chosen, others) = choose e rest in
    if p.will_retry e && is_left n p.retries
    then (some (p, suc n), (p, suc n) ∷ rest)
    else (chosen, (p, n) ∷ others)

-- How a pass of the loop ends.
pub data Round (S R E : Type 0) : Type 0 where
  ended : Ended R E → S → Round S R E
  again : Counts S E → S → Round S R E

module _ {S R E : Type 0} (call : Composite S R E) where
  -- The sleep of the policy that was chosen, if one was.
  unfoldable pub wait : Option (Policy S E × ℕ) → S → Awaited (Unit {0}) E × S
  wait none s = (returned tt, s)
  wait (some (p, n)) s = p.delay n s

  -- `if will_retry: continue` and `raise e`; an exception of the sleep or of the hook goes out.
  unfoldable pub conclude :
      E → Option (Policy S E × ℕ) → Counts S E → Awaited (Unit {0}) E × S → Round S R E
  conclude e chosen counts (failed f, s) = ended (raised f) s
  conclude e none counts (returned u, s) = ended (raised e) s
  conclude e (some p) counts (returned u, s) = again counts s

  unfoldable pub on_exception : Counts S E → E → S → Round S R E
  unfolding choose wait conclude then_await
  on_exception counts e s =
      let (chosen, charged) = choose e counts in
      conclude e chosen charged (then_await (wait chosen s) (call.failure_hook e))

  unfoldable pub after_try : Counts S E → Awaited R E × S → Round S R E
  unfolding on_exception
  after_try counts (returned r, s) = ended (result r) s
  after_try counts (failed e, s) =
      if call.is_exception e then on_exception counts e s else ended (raised e) s

  unfoldable pub round : Counts S E → S → Round S R E
  unfolding after_try then_await
  round counts s = after_try counts (then_await (call.before_hook s) call.func)

  unfoldable pub resume :
      (Counts S E → S → Option (Ended R E × S)) → Round S R E → Option (Ended R E × S)
  resume next (ended end s) = some (end, s)
  resume next (again counts s) = next counts s

  -- The loop; it is none where the fuel is used up.
  unfoldable pub loop : ℕ → Counts S E → S → Option (Ended R E × S)
  unfolding round resume
  loop zero counts s = none
  loop (suc fuel) counts s = resume (loop fuel) (round counts s)

-- The attempts that the policies have left.
unfoldable pub attempts_left : ℕ → ℤ → ℕ
attempts_left n (pos m) = m - n
attempts_left n (negsuc m) = 0

unfoldable pub budget : {S E : Type 0} → Counts S E → ℕ
unfolding attempts_left
budget [] = 0
budget ((p, n) ∷ rest) = attempts_left n p.retries + budget rest

-- The fuel is as much as the policies have attempts left, and one more.
unfoldable pub call_with_retries : {S R E : Type 0} → Composite S R E → S → Option (Ended R E × S)
unfolding loop start_counts budget
call_with_retries call s =
    let counts = start_counts call.policies in loop call (suc (budget counts)) counts s

is_left-attempts_left :
    (n : ℕ) (retries : ℤ)
    → is_left n retries ≡ true
    → suc (attempts_left (suc n) retries) ≡ attempts_left n retries
unfolding is_left attempts_left
is_left-attempts_left n (pos m) h = ground arith
is_left-attempts_left n (negsuc m) h = cc

and_right : (a b : Bool) → (a && b) ≡ true → b ≡ true
and_right true b h = h
and_right false b h = cc

module _ {S E : Type 0} where
  -- A choice uses one attempt up.
  pub choose-budget :
      (e : E) (counts : Counts S E) {p : Policy S E × ℕ}
      → (choose e counts).0 ≡ some p
      → suc (budget (choose e counts).1) ≡ budget counts
  unfolding choose budget
  choose-budget e [] h = cc
  choose-budget e ((p, n) ∷ rest) h = elim (Bool-cases (p.will_retry e && is_left n p.retries)) [
    | inl c ↦ rw c (
        omega (
          arith,
          is_left-attempts_left n p.retries (and_right (p.will_retry e) (is_left n p.retries) c),
        ))
    | inr c ↦ rw c (omega (arith, choose-budget e rest (rw c at h)))
  ]

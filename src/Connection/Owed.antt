-- ===== src/Connection/Owed.antt =====
-- The futures of coredis/connection.py that are owed a result.
use coredis.Prelude.{
  ℕ, ◌≡◌, refl, ap, ◌∙◌, Bool, true, false, ◌||◌, Option, some, List, [], ◌∷◌, ◌++◌, if◌then◌else◌,
  arith, Bool-cases, inl, inr, ℕ_discrete,
}
use coredis.Dict.{find, set_item, find-set_item, same, same-cases}
use coredis.Connection.{Request, Settled, lost, is_some, is_done, settle, fail_all}

unfoldable pub is_queued : ℕ → List Request → Bool
is_queued f [] = false
is_queued f (r ∷ rs) = same ℕ_discrete f r.future || is_queued f rs

-- The future waits in the queue, or it is done.
unfoldable pub accounted : ℕ → List Request → List (ℕ × Settled) → Bool
accounted f requests futures = is_queued f requests || is_done f futures

chosen :
    (b : Bool) (s : Settled) (o : Option Settled)
    → is_some (if b then some s else o) ≡ (b || is_some o)
unfolding is_some
chosen true s o = refl
chosen false s o = refl

or_middle : (a b c : Bool) → (a || b) ≡ true → (a || (c || b)) ≡ true
or_middle true b c h = refl
or_middle false b true h = refl
or_middle false b false h = h

or_swap : (a b c : Bool) → ((a || b) || c) ≡ true → (b || (a || c)) ≡ true
or_swap true true c h = refl
or_swap true false c h = refl
or_swap false b c h = h

-- A future that is written is done, and so are those that were.
pub is_done-set_item :
    (f g : ℕ) (s : Settled) (futures : List (ℕ × Settled))
    → is_done f (set_item ℕ_discrete g s futures) ≡ (same ℕ_discrete f g || is_done f futures)
unfolding is_done
is_done-set_item f g s futures =
    ap is_some (find-set_item ℕ_discrete f g s futures)
    ∙ chosen (same ℕ_discrete f g) s (find ℕ_discrete f futures)

is_done-settle :
    (f g : ℕ) (s : Settled) (futures : List (ℕ × Settled))
    → is_done f (settle g s futures) ≡ (same ℕ_discrete f g || is_done f futures)
unfolding settle
is_done-settle f g s futures = elim (Bool-cases (is_done g futures)) [
  | inl e ↦ elim (same-cases ℕ_discrete f g) [
    | inl (k, h) ↦ rw (e, k, h, e) refl
    | inr k ↦ rw (e, k) refl
  ]
  | inr e ↦ rw (e, is_done-set_item f g s futures) refl
]

-- `settle` forgets nothing, and the request whose future it settles need not wait any more.
pub accounted-settle :
    (f g : ℕ) (s : Settled) (rs : List Request) (futures : List (ℕ × Settled))
    → accounted f rs futures ≡ true
    → accounted f rs (settle g s futures) ≡ true
unfolding accounted
accounted-settle f g s rs futures h =
    rw (is_done-settle f g s futures)
      (or_middle (is_queued f rs) (is_done f futures) (same ℕ_discrete f g) h)

pub accounted-served :
    (f : ℕ) (r : Request) (s : Settled) (rs : List Request) (futures : List (ℕ × Settled))
    → accounted f (r ∷ rs) futures ≡ true
    → accounted f rs (settle r.future s futures) ≡ true
unfolding accounted is_queued
accounted-served f r s rs futures h =
    rw (is_done-settle f r.future s futures)
      (or_swap (same ℕ_discrete f r.future) (is_queued f rs) (is_done f futures) h)

pub accounted-queue :
    (f : ℕ) (r : Request) (rs : List Request) (futures : List (ℕ × Settled))
    → accounted f (rs ++ r ∷ []) futures ≡ (same ℕ_discrete f r.future || accounted f rs futures)
unfolding accounted is_queued
accounted-queue f r [] futures = ground arith
accounted-queue f r (q ∷ rs) futures = ground (arith, accounted-queue f r rs futures)

-- What `disconnect` leaves of the requests is nothing, and no future that has no result.
pub accounted-fail_all :
    (f : ℕ) (e : Option (List ℕ)) (rs : List Request) (futures : List (ℕ × Settled))
    → accounted f rs futures ≡ true
    → accounted f [] (fail_all e rs futures) ≡ true
unfolding fail_all
accounted-fail_all f e [] futures h = h
accounted-fail_all f e (r ∷ rs) futures h =
    accounted-fail_all f e rs (settle r.future (lost e) futures)
      (accounted-served f r (lost e) rs futures h)

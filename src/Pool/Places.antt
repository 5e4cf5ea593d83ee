-- ===== src/Pool/Places.antt =====
-- The uses of a `BlockingConnectionPool` of coredis/pool/basic.py, in any order.
use coredis.Prelude.{ℕ, ◌+◌, ◌≤◌, ◌≡◌, refl, Bool, Option, some, arith, length}
use mathlib.Core.Path.{subst}
use coredis.Pool.{World}
use coredis.Pool.Blocking.{
  BlockingPool, got, no_connection, or_50, unfilled, init, get_connection, release,
}
use coredis.Pool.Conserved.{
  IsConserved, Kept, free_places, places_of, get_connection-Kept, reset-IsConserved,
}
use coredis.Pool.Returned.{Returned, release-Returned}

-- A call gets a connection or waits too long for one, a connection is given back, or the world goes on.
pub data Step {S E : Type 0} (world : World S E)
    : BlockingPool × S → BlockingPool × S → Type 0 where
  served :
      (acquire : Bool) (c : ℕ) (p q : BlockingPool) (s t : S)
      → get_connection world acquire p s ≡ (got c, q, t)
      → Step world (p, s) (q, t)
  waited :
      (acquire : Bool) (p q : BlockingPool) (s t : S)
      → get_connection world acquire p s ≡ (no_connection, q, t)
      → Step world (p, s) (q, t)
  given_back :
      (c : ℕ) (p q : BlockingPool) (s t : S)
      → release world c p s ≡ some (q, t)
      → Step world (p, s) (q, t)
  elapsed : (p : BlockingPool) (s t : S) → Step world (p, s) (p, t)

pub data Steps {S E : Type 0} (world : World S E)
    : BlockingPool × S → BlockingPool × S → Type 0 where
  at_rest : (x : BlockingPool × S) → Steps world x x
  then_step : (x y z : BlockingPool × S) → Steps world x y → Step world y z → Steps world x z

module _ {S E : Type 0} (world : World S E) (limit : ℕ) where
  Step-IsConserved :
      (x y : BlockingPool × S) → Step world x y → IsConserved limit 0 x.0 → IsConserved limit 0 y.0
  Step-IsConserved x y (served acquire c p q s t e) h =
      subst (Kept limit) e (get_connection-Kept world limit acquire p s h)
  Step-IsConserved x y (waited acquire p q s t e) h =
      subst (Kept limit) e (get_connection-Kept world limit acquire p s h)
  Step-IsConserved x y (given_back c p q s t e) h =
      subst (Returned world limit) e (release-Returned world limit c p s h)
  Step-IsConserved x y (elapsed p s t) h = h

  Steps-IsConserved :
      (x y : BlockingPool × S) → Steps world x y → IsConserved limit 0 x.0 → IsConserved limit 0 y.0
  Steps-IsConserved x y (at_rest z) h = h
  Steps-IsConserved x z (then_step w y u steps step) h =
      Step-IsConserved y z step (Steps-IsConserved x y steps h)

init-IsConserved : (limit : Option ℕ) (pid : ℕ) → IsConserved (or_50 limit) 0 (init limit pid)
unfolding init unfilled
init-IsConserved limit pid = reset-IsConserved (or_50 limit) pid (unfilled limit pid) refl

-- Whatever a new blocking pool is used for by these steps, the places in its queue and the connections in use are as many as
-- its limit says, no connection is there twice, and the connections made, which nothing but the places limits, are as many
-- as the places that are not empty: never more than the limit. Calls whose handshake fails and `disconnect` are not among
-- the steps.
pub Steps-conserved :
    {S E : Type 0} (world : World S E) (limit : Option ℕ) (pid : ℕ) (p : BlockingPool) (s t : S)
    → Steps world (init limit pid, s) (p, t)
    → (length p.queue + length p.in_use ≡ or_50 limit)
      × ((c : ℕ) → places_of c p ≤ 1)
      × (free_places p.queue + p.created ≡ or_50 limit)
Steps-conserved world limit pid p s t steps =
    let h =
      Steps-IsConserved world (or_50 limit) (init limit pid, s) (p, t) steps
        (init-IsConserved limit pid) in
    (omega (arith, h.places), h.once, h.made)

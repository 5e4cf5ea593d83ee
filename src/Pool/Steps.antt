-- ===== src/Pool/Steps.antt =====
-- The uses of a `ConnectionPool` of coredis/pool/basic.py, in any order.
use coredis.Prelude.{ℕ, ◌+◌, ◌≤◌, ◌≡◌, refl, Bool, true, Option, arith, length}
use coredis.Pool.Lists.{contains, count}
use coredis.Pool.{Pool, World, get_connection, release, check_idle, init, limit_of, reset}
use coredis.Pool.Sound.{Sound, get_connection-Sound, release-Sound, check_idle-Sound}

-- A connection is got or given back in the process of the pool, an idle task looks at a connection
-- that is not in use, or the world goes on.
pub data Step {S E : Type 0} (world : World S E) : Pool × S → Pool × S → Type 0 where
  got :
      (acquire : Bool) (p : Pool) (s : S)
      → world.getpid s ≡ p.pid
      → Step world
          (p, s)
          ((get_connection world acquire p s).1, (get_connection world acquire p s).2)
  given_back :
      (c : ℕ) (p : Pool) (s : S)
      → world.getpid s ≡ p.pid
      → Step world (p, s) ((release world c p s).1, (release world c p s).2)
  looked_at :
      (c : ℕ) (p : Pool) (s : S)
      → contains c p.available ≡ true
      → contains c p.watched ≡ true
      → Step world (p, s) (check_idle world c p s)
  elapsed : (p : Pool) (s t : S) → Step world (p, s) (p, t)

pub data Steps {S E : Type 0} (world : World S E) : Pool × S → Pool × S → Type 0 where
  at_rest : (x : Pool × S) → Steps world x x
  then_step : (x y z : Pool × S) → Steps world x y → Step world y z → Steps world x z

module _ {S E : Type 0} (world : World S E) (limit : ℕ) where
  Step-Sound : (x y : Pool × S) → Step world x y → Sound limit x.0 → Sound limit y.0
  Step-Sound x y (got acquire p s h) sound = get_connection-Sound world limit acquire p s h sound
  Step-Sound x y (given_back c p s h) sound = release-Sound world limit c p s h sound
  Step-Sound x y (looked_at c p s h k) sound = check_idle-Sound world limit c p s h sound
  Step-Sound x y (elapsed p s t) sound = sound

  Steps-Sound : (x y : Pool × S) → Steps world x y → Sound limit x.0 → Sound limit y.0
  Steps-Sound x y (at_rest z) sound = sound
  Steps-Sound x z (then_step w y u steps step) sound =
      Step-Sound y z step (Steps-Sound x y steps sound)

init-Sound :
    (limit : Option ℕ) (idle interval pid : ℕ)
    → Sound (limit_of limit) (init limit idle interval pid)
unfolding init reset count
init-Sound limit idle interval pid =
    ((0, refl, omega arith, omega arith, refl), ((λ c. omega arith), (λ c h. omega arith)))

-- Whatever a new pool is used for by these steps, it lists no more connections than the limit, and
-- none of them twice. Steps in which an idle connection is in use, and `disconnect`, are not among them.
pub Steps-bounded :
    {S E : Type 0} (world : World S E) (limit : Option ℕ) (idle interval pid : ℕ) (p : Pool)
    (s t : S)
    → Steps world (init limit idle interval pid, s) (p, t)
    → (length p.available + length p.in_use ≤ limit_of limit)
      × ((c : ℕ) → count c p.available + count c p.in_use ≤ 1)
Steps-bounded world limit idle interval pid p s t steps =
    let ((n, e, h, k, m), (once, later)) =
      Steps-Sound world (limit_of limit) (init limit idle interval pid, s) (p, t) steps
        (init-Sound limit idle interval pid) in
    (omega arith, once)

-- ===== src/Pool/Tests.antt =====
-- Runs of the pool, and the theorems at them.
use coredis.Prelude.{ℕ, ◌+◌, ◌≤◌, ◌≡◌, refl, Bool, true, false, some, length}
use coredis.Pool.Lists.{count}
use coredis.Pool.{
  Pool, World, too_many_connections, init, limit_of, get_connection, release, disconnect,
  check_idle,
}
use coredis.Pool.Steps.{got, given_back, at_rest, then_step, Steps-bounded}
use coredis.Pool.Blocking
use coredis.Pool.Blocking.{BlockingPool}
use coredis.Pool.Conserved.{places_of, free_places}
use coredis.Pool.Places
use coredis.Pool.Places.{Steps-conserved}

-- One process, whose connections are always idle; a handshake is wanted in the state `true`, and
-- fails.
abbrev world : World Bool (Unit {0})
world = record {
  getpid = λ s. 1;
  pid_of = λ c s. 1;
  wants_handshake = λ c s. s;
  perform_handshake = λ c s. (some tt, s);
  is_idle = λ c s. true;
  connect = λ c s. s;
  disconnect = λ c s. s;
}

abbrev one : Pool
one = init (some 1) 3 1 1

abbrev used : Pool
used = (get_connection world true one false).1

second_refused : (get_connection world true used false).0 ≡ too_many_connections
unfolding init get_connection
second_refused = refl

-- After `disconnect` the connection is still listed, but not counted.
overdrawn : length (get_connection world true (disconnect world used false).0 false).1.in_use ≡ 2
unfolding init get_connection disconnect
overdrawn = refl

-- A connection that is idle while it is in use is not counted any more.
overdrawn_idle :
    length (get_connection world true (check_idle world 0 used false).0 false).1.in_use ≡ 2
unfolding init get_connection check_idle
overdrawn_idle = refl

-- A connection whose handshake fails is lost, but counted.
abbrev free : Pool
free = (release world 0 used false).1

lost :
    (get_connection world true (get_connection world true free true).1 false).0
    ≡ too_many_connections
unfolding init get_connection release
lost = refl

Steps-bounded_example :
    (length free.available + length free.in_use ≤ limit_of (some 1))
    × ((c : ℕ) → count c free.available + count c free.in_use ≤ 1)
unfolding init get_connection release
Steps-bounded_example = Steps-bounded world (some 1) 3 1 1 free false false (
    then_step (one, false) (used, false) (free, false)
      (then_step (one, false) (one, false) (used, false) (at_rest (one, false))
        (got true one false refl))
      (given_back 0 used false refl))

abbrev waiting : BlockingPool
waiting = Blocking.init (some 2) 1

abbrev holding : BlockingPool
holding = (Blocking.get_connection world true waiting false).1

holds_first : Blocking.get_connection world true waiting false ≡ (Blocking.got 0, holding, false)
unfolding Blocking.get_connection Blocking.init
holds_first = refl

Steps-conserved_example :
    (length holding.queue + length holding.in_use ≡ Blocking.or_50 (some 2))
    × ((c : ℕ) → places_of c holding ≤ 1)
    × (free_places holding.queue + holding.created ≡ Blocking.or_50 (some 2))
Steps-conserved_example = Steps-conserved world (some 2) 1 holding false false (
    Places.then_step (waiting, false) (waiting, false) (holding, false)
      (Places.at_rest (waiting, false))
      (Places.served true 0 waiting holding false false holds_first))

-- A place whose connection fails its handshake is lost.
abbrev returned_to : BlockingPool
returned_to = (Blocking.get_connection world false waiting false).1

lost_place : length (Blocking.get_connection world true returned_to true).1.queue ≡ 1
unfolding Blocking.get_connection Blocking.init
lost_place = refl

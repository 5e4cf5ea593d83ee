-- ===== src/Pool/Blocking.antt =====
-- `BlockingConnectionPool` of coredis/pool/basic.py, with its default queue, a LIFO queue. The connections and the system
-- are those of the other pool.
use mathlib.Core.List.{reverse}
use coredis.Prelude.{
  ℕ, suc, Bool, true, false, Option, none, some, List, [], ◌∷◌, if◌then◌else◌, ltb, ◌==◌, length,
  replicate,
}
use coredis.Pool.{World}
use coredis.Pool.Lists.{contains, remove, add_member}

-- The end of the queue, which is taken first, is at the head. `none` is a place with no connection yet.
pub record BlockingPool : Type 0 where
  pub max_connections : ℕ
  pub pid : ℕ
  pub created : ℕ
  pub queue : List (Option ℕ)
  pub in_use : List ℕ
  pub next : ℕ

-- How a call ends. Where the queue is empty it waits, and fails with `no_connection` where it waits too long.
pub data Got (E : Type 0) : Type 0 where
  got : ℕ → Got E
  no_connection : Got E
  raised : E → Got E

-- `max_connections or 50`
unfoldable pub or_50 : Option ℕ → ℕ
or_50 (some (suc n)) = suc n
or_50 _ = 50

unfoldable pub reset : ℕ → BlockingPool → BlockingPool
reset pid p = record p {
  pid = pid;
  created = 0;
  queue = replicate p.max_connections none;
  in_use = [];
}

-- What `__init__` sets before it calls `reset`.
unfoldable pub unfilled : Option ℕ → ℕ → BlockingPool
unfolding or_50
unfilled max_connections pid = record {
  max_connections = or_50 max_connections;
  pid = pid;
  created = 0;
  queue = [];
  in_use = [];
  next = 0;
}

unfoldable pub init : Option ℕ → ℕ → BlockingPool
unfolding unfilled reset
init max_connections pid = reset pid (unfilled max_connections pid)

-- `put_nowait`, where `none` is a QueueFull
unfoldable pub put_nowait : Option ℕ → BlockingPool → Option BlockingPool
put_nowait c p =
    if ltb (length p.queue) p.max_connections then some (record p { queue = c ∷ p.queue }) else none

module _ {S E : Type 0} (world : World S E) where
  unfoldable pub disconnect_queued : List (Option ℕ) → S → S
  disconnect_queued [] s = s
  disconnect_queued (none ∷ cs) s = disconnect_queued cs s
  disconnect_queued (some c ∷ cs) s = disconnect_queued cs (world.disconnect c s)

  unfoldable pub disconnect_used : List ℕ → S → S
  disconnect_used [] s = s
  disconnect_used (c ∷ cs) s = disconnect_used cs (world.disconnect c s)

  -- The queue is emptied from its end, and filled again in this order.
  unfoldable pub disconnect : BlockingPool → S → BlockingPool × S
  unfolding disconnect_queued disconnect_used
  disconnect p s =
      (record p { queue = reverse p.queue }, disconnect_used p.in_use (disconnect_queued p.queue s))

  unfoldable pub then_reset : BlockingPool × S → BlockingPool × S
  unfolding reset
  then_reset (p, s) = (reset (world.getpid s) p, s)

  unfoldable pub checkpid : BlockingPool → S → BlockingPool × S
  unfolding disconnect then_reset
  checkpid p s = if p.pid == world.getpid s then (p, s) else then_reset (disconnect p s)

  -- The connection is used, or goes back to the place that it was taken from.
  unfoldable pub hand_out : Bool → ℕ → BlockingPool → S → Got E × BlockingPool × S
  unfolding add_member
  hand_out true c p s = (got c, record p { in_use = add_member c p.in_use }, s)
  hand_out false c p s = (got c, record p { queue = some c ∷ p.queue }, s)

  unfoldable pub after_handshake : Bool → ℕ → BlockingPool → Option E × S → Got E × BlockingPool × S
  unfolding hand_out
  after_handshake acquire c p (some e, s) = (raised e, p, s)
  after_handshake acquire c p (none, s) = hand_out acquire c p s

  -- A new connection, which no limit stops.
  unfoldable pub make_connection : Bool → BlockingPool → S → Got E × BlockingPool × S
  unfolding hand_out
  make_connection acquire p s =
      hand_out acquire p.next (record p { created = suc p.created; next = suc p.next })
        (world.connect p.next s)

  unfoldable pub take_place : Bool → List (Option ℕ) → BlockingPool → S → Got E × BlockingPool × S
  unfolding hand_out after_handshake make_connection
  take_place acquire [] p s = (no_connection, p, s)
  take_place acquire (none ∷ queue) p s = make_connection acquire (record p { queue = queue }) s
  take_place acquire (some c ∷ queue) p s =
      if world.wants_handshake c s
      then after_handshake acquire c (record p { queue = queue }) (world.perform_handshake c s)
      else hand_out acquire c (record p { queue = queue }) s

  unfoldable pub then_take : Bool → BlockingPool × S → Got E × BlockingPool × S
  unfolding take_place
  then_take acquire (p, s) = take_place acquire p.queue p s

  unfoldable pub get_connection : Bool → BlockingPool → S → Got E × BlockingPool × S
  unfolding checkpid then_take
  get_connection acquire p s = then_take acquire (checkpid p s)

  -- The connection goes to the queue, or is closed where that is full; `none` is the KeyError of a connection not in use.
  unfoldable pub put_back : ℕ → BlockingPool → S → Option BlockingPool → BlockingPool × S
  put_back c p s none = (p, world.disconnect c s)
  put_back c p s (some q) = (q, s)

  unfoldable pub give_back : ℕ → BlockingPool → S → Option (BlockingPool × S)
  unfolding contains remove put_nowait put_back
  give_back c p s =
      if contains c p.in_use
      then (let freed = record p { in_use = remove c p.in_use } in
          some (put_back c freed s (put_nowait (some c) freed)))
      else none

  unfoldable pub then_give_back : ℕ → BlockingPool × S → Option (BlockingPool × S)
  unfolding give_back
  then_give_back c (p, s) = if world.pid_of c s == p.pid then give_back c p s else some (p, s)

  unfoldable pub release : ℕ → BlockingPool → S → Option (BlockingPool × S)
  unfolding checkpid then_give_back
  release c p s = then_give_back c (checkpid p s)

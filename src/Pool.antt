-- ===== src/Pool.antt =====
-- `ConnectionPool` of coredis/pool/basic.py. A connection is a number that stands for its identity;
-- what it does, and what the process id and the clock are, is a state of its own.
pub mod Lists
pub mod Sound
pub mod Steps
pub mod Reuse
pub mod Blocking
pub mod Conserved
pub mod Returned
pub mod Places
pub mod Tests
use mathlib.Core.List.{reverse}
use coredis.Prelude.{
  ℕ, zero, suc, ◌+◌, Bool, true, false, not, Option, none, some, List, [], ◌∷◌, ◌++◌, if◌then◌else◌,
  ltb, leb, ◌==◌, ◌&&◌,
}
use coredis.Prelude.Int.{ℤ, pos, negsuc}
use coredis.Pool.Lists.{contains, remove, add_member}

-- `available` has the end of the list at its head, and `watched` the connections with a task that
-- waits for them to be idle. `next` is the identity that the next connection gets.
pub record Pool : Type 0 where
  pub max_connections : ℕ
  pub watches : Bool
  pub pid : ℕ
  pub created : ℤ
  pub available : List ℕ
  pub in_use : List ℕ
  pub watched : List ℕ
  pub next : ℕ

-- The connections and the system. `wants_handshake` is `is_connected and needs_handshake`, and
-- `is_idle` the test that the idle task makes. A handshake ends with none, or with an exception,
-- which is no IndexError.
pub record World (S E : Type 0) : Type 0 where
  pub getpid : S → ℕ
  pub pid_of : ℕ → S → ℕ
  pub wants_handshake : ℕ → S → Bool
  pub perform_handshake : ℕ → S → Option E × S
  pub is_idle : ℕ → S → Bool
  pub connect : ℕ → S → S
  pub disconnect : ℕ → S → S

pub data Ended (E A : Type 0) : Type 0 where
  returned : A → Ended E A
  too_many_connections : Ended E A
  key_error : Ended E A
  raised : E → Ended E A

unfoldable pub decrement : ℤ → ℤ
decrement (pos zero) = negsuc 0
decrement (pos (suc n)) = pos n
decrement (negsuc n) = negsuc (suc n)

unfoldable pub increment : ℤ → ℤ
increment (pos n) = pos (suc n)
increment (negsuc zero) = pos 0
increment (negsuc (suc n)) = negsuc n

-- `self._created_connections >= self.max_connections`
unfoldable pub at_limit : ℤ → ℕ → Bool
at_limit (pos n) limit = leb limit n
at_limit (negsuc n) limit = false

-- `max_connections or 2**31`
unfoldable pub limit_of : Option ℕ → ℕ
limit_of (some (suc n)) = suc n
limit_of _ = 2147483648

unfoldable pub reset : ℕ → Pool → Pool
reset pid p = record p { pid = pid; created = pos 0; available = []; in_use = [] }

-- `ConnectionPool.__init__`
unfoldable pub init : Option ℕ → ℕ → ℕ → ℕ → Pool
unfolding limit_of reset
init max_connections max_idle_time idle_check_interval pid = reset pid (record {
  max_connections = limit_of max_connections;
  watches = ltb idle_check_interval max_idle_time && ltb 0 idle_check_interval;
  pid = pid;
  created = pos 0;
  available = [];
  in_use = [];
  watched = [];
  next = 0;
})

unfoldable pub peek_available : Pool → Option ℕ
peek_available p = last p.available
  where
    last : List ℕ → Option ℕ
    last [] = none
    last (c ∷ []) = some c
    last (c ∷ d ∷ cs) = last (d ∷ cs)

module _ {S E : Type 0} (world : World S E) where
  abbrev pub Result : Type 0 → Type 0
  Result A = Ended E A × Pool × S

  unfoldable pub disconnect_all : List ℕ → Pool → S → Pool × S
  unfolding decrement
  disconnect_all [] p s = (p, s)
  disconnect_all (c ∷ cs) p s =
      disconnect_all cs (record p { created = decrement p.created }) (world.disconnect c s)

  unfoldable pub disconnect : Pool → S → Pool × S
  unfolding disconnect_all
  disconnect p s = disconnect_all (reverse p.available ++ p.in_use) p s

  unfoldable then_reset : Pool × S → Pool × S
  unfolding reset
  then_reset (p, s) = (reset (world.getpid s) p, s)

  unfoldable pub checkpid : Pool → S → Pool × S
  unfolding disconnect then_reset
  checkpid p s = if p.pid == world.getpid s then (p, s) else then_reset (disconnect p s)

  unfoldable pub make_connection : Pool → S → ℕ × Pool × S
  unfolding increment
  make_connection p s = (
    p.next,
    record p {
      created = increment p.created;
      watched = (if p.watches then p.next ∷ p.watched else p.watched);
      next = suc p.next;
    },
    world.connect p.next s,
  )

  unfoldable pub hand_out : Bool → ℕ × Pool × S → Result ℕ
  unfolding add_member
  hand_out acquire (c, p, s) = (
    returned c,
    (if acquire
        then record p { in_use = add_member c p.in_use }
        else record p { available = c ∷ p.available }),
    s,
  )

  unfoldable pub after_handshake : Bool → ℕ → Pool → Option E × S → Result ℕ
  unfolding hand_out
  after_handshake acquire c p (some e, s) = (raised e, p, s)
  after_handshake acquire c p (none, s) = hand_out acquire (c, p, s)

  unfoldable pub take_connection : Bool → List ℕ → Pool → S → Result ℕ
  unfolding make_connection hand_out after_handshake at_limit
  take_connection acquire [] p s =
      if at_limit p.created p.max_connections
      then (too_many_connections, p, s)
      else hand_out acquire (make_connection p s)
  take_connection acquire (c ∷ cs) p s =
      if world.wants_handshake c s
      then after_handshake acquire c (record p { available = cs }) (world.perform_handshake c s)
      else hand_out acquire (c, record p { available = cs }, s)

  unfoldable then_take : Bool → Pool × S → Result ℕ
  unfolding take_connection
  then_take acquire (p, s) = take_connection acquire p.available p s

  unfoldable pub get_connection : Bool → Pool → S → Result ℕ
  unfolding checkpid then_take
  get_connection acquire p s = then_take acquire (checkpid p s)

  unfoldable pub give_back : ℕ → Pool × S → Result (Unit {0})
  unfolding contains remove
  give_back c (p, s) =
      if world.pid_of c s == p.pid
      then if contains c p.in_use
        then (returned tt, record p { in_use = remove c p.in_use; available = c ∷ p.available }, s)
        else (key_error, p, s)
      else (returned tt, p, s)

  unfoldable pub release : ℕ → Pool → S → Result (Unit {0})
  unfolding checkpid give_back
  release c p s = give_back c (checkpid p s)

  -- A pass of `disconnect_on_idle_time_exceeded`, which ends the task where the connection is idle.
  unfoldable pub check_idle : ℕ → Pool → S → Pool × S
  unfolding contains remove decrement
  check_idle c p s =
      if world.is_idle c s
      then (
        record p {
          available = (if contains c p.available then remove c p.available else p.available);
          created = decrement p.created;
          watched = remove c p.watched;
        },
        world.disconnect c s,
      )
      else (p, s)

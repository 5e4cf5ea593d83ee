-- ===== src/Cluster/Released.antt =====
-- That `_execute_command_on_single_node` of coredis/client/cluster.py gives back each connection that it takes.
use coredis.Prelude.{
  ℕ, zero, suc, ◌+◌, ◌≤◌, ◌≡◌, refl, sym, ap, ◌∙◌, Bool, true, false, ℕ_discrete, Option, none,
  some, List, [], ◌∷◌, ◌++◌, not, if◌then◌else◌, arith,
}
use mathlib.Core.List.{append_assoc}
use mathlib.Core.Path.{subst}
use coredis.Dict.{find}
use coredis.Retry.{Awaited, returned, failed}
use coredis.NodeManager.{ManagedNode, Manager, set_node, primary}
use coredis.Cluster.Taken.{After, After-cong, Takes, take_connection-Takes}
use coredis.Cluster.Redirect.{
  Failure, moved, ask, try_again, other, World, End, result, Event, taken, released, Run, Passed,
  again, over, Next, held, unheld, take_connection, give_back, move_slot, note_moved, on_moved,
  on_failure, finally, after_reply, after_send, after_asking, exchange, with_held, go_on, attempts,
  start, execute_command_on_single_node,
}

-- So many connections, each of which is given back before another is taken.
pub data Balanced : ℕ → List Event → Type 0 where
  nothing_taken : Balanced 0 []
  then_one :
      (n r : ℕ) (events : List Event)
      → Balanced n events
      → Balanced (suc n) (events ++ taken r ∷ released r ∷ [])

module _ {S R E : Type 0} (w : World S R E) where
  note_moved-After :
      (node : ManagedNode) (run : Run S) (m : Option Manager)
      → After (λ after. after ≡ run.events) (note_moved w node run m)
  unfolding note_moved
  note_moved-After node run none = refl
  note_moved-After node run (some m) = refl

  on_moved-After :
      (host : List ℕ) (port slot : ℕ) (run : Run S) (x : Awaited Manager E × S)
      → After (λ after. after ≡ run.events) (on_moved w host port slot run x)
  unfolding on_moved
  on_moved-After host port slot run (failed e, s) = refl
  on_moved-After host port slot run (returned m, s) =
      let node : ManagedNode = record {
        host = host;
        port = port;
        server_type = some primary;
        node_id = none;
      } in
      let with_node = set_node host port primary m in
      note_moved-After node (record run { manager = with_node; state = s })
        (move_slot w node (find ℕ_discrete slot with_node.slots) slot with_node)

  on_failure-After :
      (e : Failure E) (run : Run S) → After (λ after. after ≡ run.events) (on_failure w e run)
  unfolding on_failure
  on_failure-After (moved host port slot) run =
      on_moved-After host port slot (record run { refresh_table_asap = true })
        (w.counts_up run.manager run.state)
  on_failure-After (ask host port) run = refl
  on_failure-After try_again run = refl
  on_failure-After (other e) run = refl

  give_back-events :
      (events : List Event) (r : ℕ) (is_released : Bool) (run : Run S)
      → run.events
        ≡ (if is_released then events ++ taken r ∷ released r ∷ [] else events ++ taken r ∷ [])
      → (give_back w r is_released run).events ≡ events ++ taken r ∷ released r ∷ []
  unfolding give_back
  give_back-events events r true run h = h
  give_back-events events r false run h =
      ap (λ es. es ++ released r ∷ []) h ∙ append_assoc events (taken r ∷ []) (released r ∷ [])

  -- The events where the connection `r` was taken, and may have been given back.
  abbrev Holds : List Event → ℕ → Bool → List Event → Type 0
  Holds events r is_released after =
      after ≡ (if is_released then events ++ taken r ∷ released r ∷ [] else events ++ taken r ∷ [])

  -- The events where it was taken and given back.
  abbrev Returns : List Event → ℕ → Passed S R E → Type 0
  Returns events r = After (λ after. after ≡ events ++ taken r ∷ released r ∷ [])

  finally-Returns :
      (events : List Event) (r : ℕ) (is_released : Bool) (passed : Passed S R E)
      → After (Holds events r is_released) passed
      → Returns events r (finally w r is_released passed)
  unfolding finally
  finally-Returns events r is_released (again run) h = give_back-events events r is_released run h
  finally-Returns events r is_released (over end run) h =
      give_back-events events r is_released run h

  failure-Returns :
      (events : List Event) (r : ℕ) (is_released : Bool) (e : Failure E) (run : Run S)
      → Holds events r is_released run.events
      → Returns events r (finally w r is_released (on_failure w e run))
  failure-Returns events r is_released e run h =
      finally-Returns events r is_released (on_failure w e run)
        (After-cong (on_failure w e run) (λ after k. k ∙ h) (on_failure-After e run))

  after_reply-Returns :
      (events : List Event) (r : ℕ) (is_released : Bool) (run : Run S)
      (x : Awaited R (Failure E) × S)
      → Holds events r is_released run.events
      → Returns events r (after_reply w r is_released run x)
  unfolding after_reply
  after_reply-Returns events r is_released run (returned v, s) h =
      finally-Returns events r is_released (over (result v) (record run { state = s })) h
  after_reply-Returns events r is_released run (failed e, s) h =
      failure-Returns events r is_released e (record run { state = s }) h

  sent-Holds :
      (events : List Event) (r : ℕ) (quick : Bool) (run : Run S)
      → run.events ≡ events ++ taken r ∷ []
      → Holds events r quick (give_back w r (not quick) run).events
  unfolding give_back
  sent-Holds events r true run h =
      ap (λ es. es ++ released r ∷ []) h ∙ append_assoc events (taken r ∷ []) (released r ∷ [])
  sent-Holds events r false run h = h

  after_send-Returns :
      (events : List Event) (r : ℕ) (run : Run S) (x : Awaited (Unit {0}) (Failure E) × S)
      → run.events ≡ events ++ taken r ∷ []
      → Returns events r (after_send w r run x)
  unfolding after_send
  after_send-Returns events r run (failed e, s) h =
      failure-Returns events r false e (record run { state = s }) h
  after_send-Returns events r run (returned u, s) h =
      let sent = give_back w r (not run.quick_release) (record run { state = s }) in
      after_reply-Returns events r run.quick_release sent (w.replies r sent.state)
        (sent-Holds events r run.quick_release (record run { state = s }) h)

  after_asking-Returns :
      (events : List Event) (r : ℕ) (run : Run S) (x : Awaited (Unit {0}) (Failure E) × S)
      → run.events ≡ events ++ taken r ∷ []
      → Returns events r (after_asking w r run x)
  unfolding after_asking
  after_asking-Returns events r run (failed e, s) h =
      failure-Returns events r false e (record run { state = s }) h
  after_asking-Returns events r run (returned u, s) h =
      after_send-Returns events r (record run { asking = false; state = s }) (w.sends r s) h

  if-After :
      (P : List Event → Type 0) (b : Bool) (x y : Passed S R E)
      → After P x
      → After P y
      → After P (if b then x else y)
  if-After P true x y h k = h
  if-After P false x y h k = k

  exchange-Returns :
      (events : List Event) (r : ℕ) (run : Run S)
      → run.events ≡ events ++ taken r ∷ []
      → Returns events r (exchange w r run)
  unfolding exchange
  exchange-Returns events r run h =
      if-After (λ after. after ≡ events ++ taken r ∷ released r ∷ []) run.asking
        (after_asking w r run (w.asks r run.state)) (after_send w r run (w.sends r run.state))
        (after_asking-Returns events r run (w.asks r run.state) h)
        (after_send-Returns events r run (w.sends r run.state) h)

  -- At most so many connections were taken, and all were given back.
  abbrev AllBack : ℕ → List Event → Type 0
  AllBack limit events = (n : ℕ) × (n ≤ limit) × Balanced n events

  with_held-AllBack :
      (limit : ℕ) (events : List Event) (next : Next S R E)
      → AllBack limit events
      → Takes events next
      → After (AllBack (suc limit)) (with_held w next)
  unfolding with_held
  with_held-AllBack limit events (held r run) (n, below, b) h =
      After-cong (exchange w r run)
        (λ after e.
          subst (AllBack (suc limit)) (sym e) (suc n, omega (arith, below), then_one n r events b))
        (exchange-Returns events r run h)
  with_held-AllBack limit events (unheld passed) (n, below, b) h =
      After-cong passed
        (λ after e. subst (AllBack (suc limit)) (sym e) (n, omega (arith, below), b)) h

  go_on-AllBack :
      (limit bound : ℕ) (rest : Run S → End R E × Run S) (passed : Passed S R E)
      → limit ≤ bound
      → ((run : Run S) → AllBack limit run.events → AllBack bound (rest run).1.events)
      → After (AllBack limit) passed
      → AllBack bound (go_on w rest passed).1.events
  unfolding go_on
  go_on-AllBack limit bound rest (again run) le k h = k run h
  go_on-AllBack limit bound rest (over end run) le k (n, below, b) =
      (n, omega (arith, below, le), b)

  attempts-AllBack :
      (remaining limit : ℕ) (run : Run S)
      → AllBack limit run.events
      → AllBack (limit + remaining) (attempts w remaining run).1.events
  unfolding attempts
  attempts-AllBack zero limit run (n, below, b) = (n, omega (arith, below), b)
  attempts-AllBack (suc remaining) limit run h =
      go_on-AllBack (suc limit) (limit + suc remaining) (attempts w remaining)
        (with_held w (take_connection w run)) (omega arith)
        (λ next k.
          subst (λ bound. AllBack bound (attempts w remaining next).1.events) (omega arith)
            (attempts-AllBack remaining (suc limit) next k))
        (with_held-AllBack limit run.events (take_connection w run) h (take_connection-Takes w run))

  -- However the call ends, it took at most 16 connections, one after the other, and gave each back before it took the next
  -- one or ended.
  pub execute_command_on_single_node-Balanced :
      (m : Manager) (refresh : Bool) (node : Option ManagedNode) (slots : List ℕ)
      (quick_release : Bool) (s : S)
      → (n : ℕ) × (n ≤ 16)
        × Balanced n
            (execute_command_on_single_node w m refresh node slots quick_release s).1.events
  unfolding execute_command_on_single_node start
  execute_command_on_single_node-Balanced m refresh node slots quick_release s =
      attempts-AllBack 16 0 (start w m refresh node slots quick_release s)
        (0, omega arith, nothing_taken)

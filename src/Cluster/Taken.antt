-- ===== src/Cluster/Taken.antt =====
-- The connection that a pass of `_execute_command_on_single_node` of coredis/client/cluster.py takes, if it takes one.
use coredis.Prelude.{
  ℕ, ◌≡◌, refl, Bool, true, false, Option, none, some, List, [], ◌∷◌, ◌++◌, ◌&&◌, if◌then◌else◌,
}
use coredis.Dict.{find}
use coredis.Retry.{Awaited, returned, failed}
use coredis.NodeManager.{ManagedNode, Manager, names_equal}
use coredis.Cluster.Redirect.{
  World, Event, taken, Run, Passed, again, over, Next, held, unheld, Found, found, not_there,
  several, with_connection, take_from, take_found, take_known, take_random, take_redirected, choose,
  after_refresh, take_connection, is_nil, get_primary_node_by_slots,
}

module _ {S R E : Type 0} where
  -- What holds of the events after a pass.
  abbrev pub After : (List Event → Type 0) → Passed S R E → Type 0
  After P (again run) = P run.events
  After P (over end run) = P run.events

  pub After-cong :
      {P Q : List Event → Type 0} (passed : Passed S R E)
      → ((after : List Event) → P after → Q after)
      → After P passed
      → After Q passed
  After-cong (again run) k h = k run.events h
  After-cong (over end run) k h = k run.events h

  -- Of the events `events`, nothing was added, or a connection that is held.
  abbrev pub Takes : List Event → Next S R E → Type 0
  Takes events (held r run) = run.events ≡ events ++ taken r ∷ []
  Takes events (unheld passed) = After (λ after. after ≡ events) passed

module _ {S R E : Type 0} (w : World S R E) where
  with_connection-Takes :
      (run : Run S) (x : Awaited ℕ E × S) → Takes run.events (with_connection w run x)
  unfolding with_connection
  with_connection-Takes run (returned r, s) = refl
  with_connection-Takes run (failed e, s) = refl

  take_from-Takes : (node : ManagedNode) (run : Run S) → Takes run.events (take_from w node run)
  unfolding take_from
  take_from-Takes node run =
      with_connection-Takes (record run { node = some node })
        (w.get_connection_by_node node run.manager run.state)

  take_found-Takes : (x : Found) (run : Run S) → Takes run.events (take_found w x run)
  unfolding take_found
  take_found-Takes (found node) run = take_from-Takes node run
  take_found-Takes not_there run = refl
  take_found-Takes several run = refl

  if-Takes :
      (b : Bool) (events : List Event) (x y : Next S R E)
      → Takes events x
      → Takes events y
      → Takes events (if b then x else y)
  if-Takes true events x y h k = h
  if-Takes false events x y h k = k

  take_known-Takes :
      (node : Option ManagedNode) (run : Run S) → Takes run.events (take_known w node run)
  unfolding take_known
  take_known-Takes (some node) run = take_from-Takes node run
  take_known-Takes none run =
      if-Takes (is_nil run.slots) run.events (unheld (again run)) _ refl
        (take_found-Takes (get_primary_node_by_slots run.manager run.slots) run)

  take_random-Takes : (run : Run S) → Takes run.events (take_random w run)
  unfolding take_random
  take_random-Takes run =
      with_connection-Takes
        (record run { try_random_node = run.try_random_node && is_nil run.slots })
        (w.get_random_connection run.random_primary run.manager run.state)

  take_redirected-Takes :
      (node : Option ManagedNode) (run : Run S) → Takes run.events (take_redirected w node run)
  unfolding take_redirected
  take_redirected-Takes none run = refl
  take_redirected-Takes (some node) run = take_from-Takes node run

  take_usual-Takes :
      (run : Run S)
      → Takes run.events
          (if run.try_random_node then take_random w run else take_known w run.node run)
  take_usual-Takes run =
      if-Takes run.try_random_node run.events (take_random w run) (take_known w run.node run)
        (take_random-Takes run) (take_known-Takes run.node run)

  choose-Takes :
      (asking : Bool) (addr : Option (List ℕ)) (run : Run S)
      → Takes run.events (choose w asking addr run)
  unfolding choose
  choose-Takes true (some addr) run =
      take_redirected-Takes (find names_equal addr run.manager.nodes) run
  choose-Takes true none run = take_usual-Takes run
  choose-Takes false addr run = take_usual-Takes run

  after_refresh-Takes :
      (run : Run S) (x : Awaited Manager E × S) → Takes run.events (after_refresh w run x)
  unfolding after_refresh
  after_refresh-Takes run (failed e, s) = refl
  after_refresh-Takes run (returned m, s) =
      choose-Takes run.asking run.redirect_addr
        (record run { manager = m; refresh_table_asap = false; state = s })

  pub take_connection-Takes : (run : Run S) → Takes run.events (take_connection w run)
  unfolding take_connection
  take_connection-Takes run =
      if-Takes (run.refresh_table_asap && is_nil run.slots) run.events _ _
        (after_refresh-Takes run (w.refreshes run.manager run.state))
        (choose-Takes run.asking run.redirect_addr run)

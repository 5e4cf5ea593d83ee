-- ===== src/Cluster/Redirect.antt =====
-- `_execute_command_on_single_node` of coredis/client/cluster.py. The pool, the connections and the initialization are
-- parameters with a state of their own; what the call takes and gives back is noted.
use coredis.Prelude.{
  ℕ, zero, suc, Bool, true, false, ◌&&◌, not, Option, none, some, List, [], ◌∷◌, ◌++◌,
  if◌then◌else◌, ℕ_discrete,
}
use coredis.Dict.{find, set_item, same}
use coredis.Retry.{Awaited, returned, failed}
use coredis.Resp.Number.{decimal}
use coredis.NodeManager.{ManagedNode, Manager, primary, names_equal, set_node}
use coredis.Cluster.{is_found}

-- The exceptions of the `try` block: those that redirect, and the others.
pub data Failure (E : Type 0) : Type 0 where
  moved : List ℕ → ℕ → ℕ → Failure E
  ask : List ℕ → ℕ → Failure E
  try_again : Failure E
  other : E → Failure E

-- `asks` is the exchange of ASKING, `sends` what is done up to the sending of the command, and `replies` the rest of the
-- block; `refreshes` is `await self`, and `counts_up` is `increment_reinitialize_counter`.
pub record World (S R E : Type 0) : Type 0 where
  pub get_connection_by_node : ManagedNode → Manager → S → Awaited ℕ E × S
  pub get_random_connection : Bool → Manager → S → Awaited ℕ E × S
  pub release : ℕ → S → S
  pub asks : ℕ → S → Awaited (Unit {0}) (Failure E) × S
  pub sends : ℕ → S → Awaited (Unit {0}) (Failure E) × S
  pub replies : ℕ → S → Awaited R (Failure E) × S
  pub refreshes : Manager → S → Awaited Manager E × S
  pub counts_up : Manager → S → Awaited Manager E × S

-- How the call ends; `lookup_error` is a KeyError or an IndexError, `unmapped` and `exhausted` are the exceptions of
-- `get_primary_node_by_slots` and of the last line.
pub data End (R E : Type 0) : Type 0 where
  result : R → End R E
  raised : E → End R E
  lookup_error unmapped exhausted : End R E

pub data Event : Type 0 where
  taken released : ℕ → Event

-- The local variables, the attribute `refresh_table_asap` and the node manager; `slots` is empty where there are none.
pub record Run (S : Type 0) : Type 0 where
  pub manager : Manager
  pub refresh_table_asap : Bool
  pub slots : List ℕ
  pub node : Option ManagedNode
  pub asking : Bool
  pub redirect_addr : Option (List ℕ)
  pub try_random_node : Bool
  pub random_primary : Bool
  pub quick_release : Bool
  pub events : List Event
  pub state : S

-- What follows a pass of the loop: another one, or the end of the call.
pub data Passed (S R E : Type 0) : Type 0 where
  again : Run S → Passed S R E
  over : End R E → Run S → Passed S R E

-- What the first part of a pass gives: a connection, or none.
pub data Next (S R E : Type 0) : Type 0 where
  held : ℕ → Run S → Next S R E
  unheld : Passed S R E → Next S R E

-- `slots[slot][0]`
unfoldable pub first_of : Option (List ManagedNode) → Option ManagedNode
first_of (some (n ∷ ns)) = some n
first_of _ = none

unfoldable pub first_node : Manager → ℕ → Option ManagedNode
unfolding first_of
first_node m slot = first_of (find ℕ_discrete slot m.slots)

unfoldable pub same_id : Option (List ℕ) → Option (List ℕ) → Bool
unfolding same
same_id none none = true
same_id (some a) (some b) = same names_equal a b
same_id _ _ = false

-- `get_primary_node_by_slots`, which compares the identifiers of the nodes
pub data Found : Type 0 where
  found : ManagedNode → Found
  not_there several : Found

unfoldable pub check_slot : ManagedNode → Option ManagedNode → Found → Found
unfolding same_id
check_slot node none rest = not_there
check_slot node (some head) not_there = not_there
check_slot node (some head) rest = if same_id node.node_id head.node_id then rest else several

unfoldable pub check_slots : Manager → ManagedNode → List ℕ → Found
unfolding check_slot first_node
check_slots m node [] = found node
check_slots m node (slot ∷ slots) = check_slot node (first_node m slot) (check_slots m node slots)

unfoldable pub get_primary_node_by_slots : Manager → List ℕ → Found
unfolding check_slots
get_primary_node_by_slots m [] = several
get_primary_node_by_slots m (slot ∷ slots) = elim (first_node m slot) [
  | none ↦ not_there
  | some node ↦ check_slots m node slots
]

unfoldable pub is_nil : List ℕ → Bool
is_nil [] = true
is_nil (s ∷ slots) = false

module _ {S R E : Type 0} (w : World S R E) where
  unfoldable pub with_connection : Run S → Awaited ℕ E × S → Next S R E
  with_connection run (returned r, s) =
      held r (record run { state = s; events = run.events ++ taken r ∷ [] })
  with_connection run (failed e, s) = unheld (over (raised e) (record run { state = s }))

  unfoldable pub take_from : ManagedNode → Run S → Next S R E
  unfolding with_connection
  take_from node run =
      with_connection (record run { node = some node })
        (w.get_connection_by_node node run.manager run.state)

  unfoldable pub take_found : Found → Run S → Next S R E
  unfolding take_from
  take_found (found node) run = take_from node run
  take_found not_there run = unheld (over lookup_error run)
  take_found several run = unheld (over unmapped run)

  -- Both calls for the node of the slots give its primary, as `get_node_by_slots` is not told the command.
  unfoldable pub take_known : Option ManagedNode → Run S → Next S R E
  unfolding take_from take_found is_nil get_primary_node_by_slots
  take_known (some node) run = take_from node run
  take_known none run =
      if is_nil run.slots
      then unheld (again run)
      else take_found (get_primary_node_by_slots run.manager run.slots) run

  unfoldable pub take_random : Run S → Next S R E
  unfolding with_connection is_nil
  take_random run =
      with_connection (record run { try_random_node = run.try_random_node && is_nil run.slots })
        (w.get_random_connection run.random_primary run.manager run.state)

  unfoldable pub take_redirected : Option ManagedNode → Run S → Next S R E
  unfolding take_from
  take_redirected none run = unheld (over lookup_error run)
  take_redirected (some node) run = take_from node run

  unfoldable pub choose : Bool → Option (List ℕ) → Run S → Next S R E
  unfolding take_redirected take_random take_known
  choose true (some addr) run = take_redirected (find names_equal addr run.manager.nodes) run
  choose _ _ run = if run.try_random_node then take_random run else take_known run.node run

  unfoldable pub after_refresh : Run S → Awaited Manager E × S → Next S R E
  unfolding choose
  after_refresh run (failed e, s) = unheld (over (raised e) (record run { state = s }))
  after_refresh run (returned m, s) =
      choose run.asking run.redirect_addr
        (record run { manager = m; refresh_table_asap = false; state = s })

  unfoldable pub take_connection : Run S → Next S R E
  unfolding after_refresh
  take_connection run =
      if run.refresh_table_asap && is_nil run.slots
      then after_refresh run (w.refreshes run.manager run.state)
      else choose run.asking run.redirect_addr run

  -- `finally`
  unfoldable pub give_back : ℕ → Bool → Run S → Run S
  give_back r is_released run =
      if is_released
      then run
      else record run { state = w.release r run.state; events = run.events ++ released r ∷ [] }

  unfoldable pub move_slot : ManagedNode → Option (List ManagedNode) → ℕ → Manager → Option Manager
  move_slot node (some (n ∷ ns)) slot m =
      some (record m { slots = set_item ℕ_discrete slot (node ∷ ns) m.slots })
  move_slot node _ slot m = none

  unfoldable pub note_moved : ManagedNode → Run S → Option Manager → Passed S R E
  note_moved node run none =
      over lookup_error (record run { node = some node; try_random_node = false })
  note_moved node run (some m) =
      again (record run { manager = m; node = some node; try_random_node = false })

  -- `self.refresh_table_asap = True` and what follows it
  unfoldable pub on_moved : List ℕ → ℕ → ℕ → Run S → Awaited Manager E × S → Passed S R E
  unfolding note_moved move_slot
  on_moved host port slot run (failed e, s) = over (raised e) (record run { state = s })
  on_moved host port slot run (returned m, s) =
      let node : ManagedNode = record {
        host = host;
        port = port;
        server_type = some primary;
        node_id = none;
      } in
      let with_node = set_node host port primary m in
      note_moved node (record run { manager = with_node; state = s })
        (move_slot node (find ℕ_discrete slot with_node.slots) slot with_node)

  unfoldable pub on_failure : Failure E → Run S → Passed S R E
  unfolding on_moved
  on_failure (moved host port slot) run =
      on_moved host port slot (record run { refresh_table_asap = true })
        (w.counts_up run.manager run.state)
  on_failure (ask host port) run =
      again (record run { redirect_addr = some (host ++ b':' ∷ decimal port); asking = true })
  on_failure try_again run = again run
  on_failure (other e) run = over (raised e) run

  unfoldable pub finally : ℕ → Bool → Passed S R E → Passed S R E
  unfolding give_back
  finally r is_released (again run) = again (give_back r is_released run)
  finally r is_released (over end run) = over end (give_back r is_released run)

  unfoldable pub after_reply : ℕ → Bool → Run S → Awaited R (Failure E) × S → Passed S R E
  unfolding finally on_failure
  after_reply r is_released run (returned v, s) =
      finally r is_released (over (result v) (record run { state = s }))
  after_reply r is_released run (failed e, s) =
      finally r is_released (on_failure e (record run { state = s }))

  -- The command is sent, and a connection that is not needed for itself goes back before the reply.
  unfoldable pub after_send : ℕ → Run S → Awaited (Unit {0}) (Failure E) × S → Passed S R E
  unfolding after_reply give_back
  after_send r run (failed e, s) = finally r false (on_failure e (record run { state = s }))
  after_send r run (returned u, s) =
      let sent = give_back r (not run.quick_release) (record run { state = s }) in
      after_reply r run.quick_release sent (w.replies r sent.state)

  unfoldable pub after_asking : ℕ → Run S → Awaited (Unit {0}) (Failure E) × S → Passed S R E
  unfolding after_send
  after_asking r run (failed e, s) = finally r false (on_failure e (record run { state = s }))
  after_asking r run (returned u, s) =
      after_send r (record run { asking = false; state = s }) (w.sends r s)

  unfoldable pub exchange : ℕ → Run S → Passed S R E
  unfolding after_asking
  exchange r run =
      if run.asking
      then after_asking r run (w.asks r run.state)
      else after_send r run (w.sends r run.state)

  unfoldable pub with_held : Next S R E → Passed S R E
  unfolding exchange
  with_held (held r run) = exchange r run
  with_held (unheld next) = next

  unfoldable pub go_on : (Run S → End R E × Run S) → Passed S R E → End R E × Run S
  go_on rest (over end run) = (end, run)
  go_on rest (again run) = rest run

  -- The loop, with the attempts that remain.
  unfoldable pub attempts : ℕ → Run S → End R E × Run S
  unfolding take_connection with_held go_on
  attempts zero run = (exhausted, run)
  attempts (suc remaining) run = go_on (attempts remaining) (with_held (take_connection run))

  unfoldable pub start : Manager → Bool → Option ManagedNode → List ℕ → Bool → S → Run S
  unfolding is_nil is_found
  start m refresh node slots quick_release s =
      let is_random : Bool = not (is_found node) && is_nil slots in
      record {
        manager = m;
        refresh_table_asap = refresh;
        slots = slots;
        node = node;
        asking = false;
        redirect_addr = none;
        try_random_node = is_random;
        random_primary = is_random;
        quick_release = quick_release;
        events = [];
        state = s;
      }

  -- `MAX_RETRIES` is 16.
  unfoldable pub execute_command_on_single_node :
      Manager → Bool → Option ManagedNode → List ℕ → Bool → S → End R E × Run S
  unfolding attempts start
  execute_command_on_single_node m refresh node slots quick_release s =
      attempts 16 (start m refresh node slots quick_release s)

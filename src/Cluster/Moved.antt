-- ===== src/Cluster/Moved.antt =====
-- What `_execute_command_on_single_node` of coredis/client/cluster.py makes of a MOVED reply.
use coredis.Prelude.{
  ℕ, ◌≡◌, refl, ap, ◌∙◌, Bool, true, false, Option, none, some, List, [], ◌∷◌, ◌&&◌, if◌then◌else◌,
  ℕ_discrete,
}
use coredis.Dict.{find, set_item, same, find-set_item}
use coredis.Retry.{returned}
use coredis.NodeManager.{ManagedNode, Manager, set_node, primary}
use coredis.Cluster.Redirect.{
  moved, World, Run, again, take_from, take_known, choose, take_connection, is_nil, first_node,
  first_of, move_slot, note_moved, on_moved, on_failure,
}

-- The node that a MOVED reply names, and what is noted of it.
abbrev pub moved_node : List ℕ → ℕ → ManagedNode
moved_node host port = record {
  host = host;
  port = port;
  server_type = some primary;
  node_id = none;
}

first_of-if :
    (b : Bool) (node : ManagedNode) (others : List ManagedNode) (o : Option (List ManagedNode))
    → first_of (if b then some (node ∷ others) else o) ≡ (if b then some node else first_of o)
unfolding first_of
first_of-if true node others o = refl
first_of-if false node others o = refl

first_node-set_item :
    (m : Manager) (node : ManagedNode) (others : List ManagedNode) (slot s : ℕ)
    → first_node (record m { slots = set_item ℕ_discrete slot (node ∷ others) m.slots }) s
      ≡ (if same ℕ_discrete s slot then some node else first_node m s)
unfolding first_node
first_node-set_item m node others slot s =
    ap first_of (find-set_item ℕ_discrete s slot (node ∷ others) m.slots)
    ∙ first_of-if (same ℕ_discrete s slot) node others (find ℕ_discrete s m.slots)

if_false : {A : Type 0} (b : Bool) (x y : A) → b ≡ false → (if b then x else y) ≡ y
if_false true x y h = cc
if_false false x y h = refl

not_nil :
    (b : Bool) (slots : List ℕ) (s : ℕ) (more : List ℕ)
    → slots ≡ s ∷ more
    → (b && is_nil slots) ≡ false
unfolding is_nil
not_nil b [] s more h = cc
not_nil true (t ∷ slots) s more h = refl
not_nil false (t ∷ slots) s more h = refl

module _ {S R E : Type 0} (w : World S R E) where
  -- A call for slots that knows a node and is not to ask goes there.
  takes_node :
      (node : ManagedNode) (s : ℕ) (more : List ℕ) (run : Run S)
      → run.slots ≡ s ∷ more
      → run.asking ≡ false
      → run.try_random_node ≡ false
      → run.node ≡ some node
      → take_connection w run ≡ take_from w node run
  unfolding take_connection choose take_known
  takes_node node s more run has_slots no_ask known there =
      if_false (run.refresh_table_asap && is_nil run.slots) _
        (choose w run.asking run.redirect_addr run)
        (not_nil run.refresh_table_asap run.slots s more has_slots)
      ∙ ap (λ a. choose w a run.redirect_addr run) no_ask
      ∙ if_false run.try_random_node _ (take_known w run.node run) known
      ∙ ap (λ n. take_known w n run) there

  -- Where a call for slots is answered with MOVED, the counter is counted up without an exception and the slot has nodes,
  -- the call goes on; it takes its next connection from the node that is named, which is also the first node of the slot from
  -- now on, and the other slots keep theirs.
  pub on_failure-moved :
      (host : List ℕ) (port slot slot_of_call : ℕ) (slots : List ℕ) (run : Run S) (m : Manager)
      (s : S) (n : ManagedNode) (ns : List ManagedNode)
      → run.slots ≡ slot_of_call ∷ slots
      → run.asking ≡ false
      → w.counts_up run.manager run.state ≡ (returned m, s)
      → find ℕ_discrete slot m.slots ≡ some (n ∷ ns)
      → (next : Run S) × (on_failure w (moved host port slot) run ≡ again next)
        × (take_connection w next ≡ take_from w (moved_node host port) next)
        × ((t : ℕ)
            → first_node next.manager t
              ≡ (if same ℕ_discrete t slot then some (moved_node host port) else first_node m t))
  unfolding on_failure on_moved set_node move_slot note_moved first_node
  on_failure-moved host port slot call_slot slots run m s n ns has_slots no_ask counted there =
      let node = moved_node host port in
      let with_node = set_node host port primary m in
      let final = record with_node { slots = set_item ℕ_discrete slot (node ∷ ns) m.slots } in
      (
        record run {
          manager = final;
          refresh_table_asap = true;
          node = some node;
          try_random_node = false;
          state = s;
        },
        rw (counted, there) refl,
        takes_node node call_slot slots _ has_slots no_ask refl refl,
        λ t. first_node-set_item with_node node ns slot t,
      )

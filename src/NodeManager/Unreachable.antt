-- ===== src/NodeManager/Unreachable.antt =====
-- `initialize` of coredis/pool/nodemanager.py where no startup node answers.
use coredis.Prelude.{
  ◌≡◌, refl, sym, ap, ◌∙◌, Option, none, some, false, List, [], ◌∷◌, ◌++◌, ℕ, Option-cases, inl,
  inr, if◌then◌else◌,
}
use mathlib.Core.List.{append-nil, append_assoc}
use coredis.Dict.{find, same, same-cases, find-set_item}
use coredis.NodeManager.{ManagedNode, Manager, Names, names_equal, name_of}
use coredis.NodeManager.Discover.{
  raised, cannot_connect, Progress, start, redis_error, SlotsAnswer, Servers, done, note_error,
}
use coredis.NodeManager.Initialize.{
  after_answer, ask_nodes, conclude, initialize, chosen_nodes, with_error,
}

-- The names that stand under an error.
unfoldable pub listed : Option (List (List ℕ)) → List (List ℕ)
listed none = []
listed (some names) = names

unfoldable pub names_under : List ℕ → Names (List (List ℕ)) → List (List ℕ)
unfolding listed
names_under err errors = listed (find names_equal err errors)

-- The names that failed with an error, of the pairs of an error and a name.
unfoldable pub failed_with : List ℕ → List (List ℕ × List ℕ) → List (List ℕ)
failed_with text [] = []
failed_with text ((err, name) ∷ more) =
    let later = failed_with text more in if same names_equal text err then name ∷ later else later

unfoldable pub error_text : {E : Type 0} → SlotsAnswer E → List ℕ
error_text (redis_error err) = err
error_text _ = []

-- The error of each node when the nodes are asked in turn, with the node's name.
unfoldable pub failures :
    {S E : Type 0} → Servers S E → List ManagedNode → S → List (List ℕ × List ℕ)
unfolding error_text
failures servers [] s = []
failures servers (node ∷ nodes) s =
    let (answer, t) = servers.cluster_slots node s in
    (error_text answer, name_of node) ∷ failures servers nodes t

names_under-note_error :
    (text err name : List ℕ) (errors : Names (List (List ℕ)))
    → names_under text (note_error err name errors)
      ≡ names_under text errors ++ failed_with text ((err, name) ∷ [])
unfolding names_under note_error failed_with listed
names_under-note_error text err name errors = elim (Option-cases (find names_equal err errors)) [
  | inl e ↦
      let held = find-set_item names_equal text err (name ∷ []) errors in
      elim (same-cases names_equal text err) [
        | inl (i, f) ↦ rw (e, note_error, held, i, f, e) refl
        | inr i ↦ rw (e, note_error, held, i) (sym (append-nil _))
      ]
  | inr (names, e) ↦
      let held = find-set_item names_equal text err (names ++ name ∷ []) errors in
      elim (same-cases names_equal text err) [
        | inl (i, f) ↦ rw (e, note_error, held, i, f, e) refl
        | inr i ↦ rw (e, note_error, held, i) (sym (append-nil _))
      ]
]

failed_with-cons :
    (text err name : List ℕ) (more : List (List ℕ × List ℕ))
    → failed_with text ((err, name) ∷ more)
      ≡ failed_with text ((err, name) ∷ []) ++ failed_with text more
unfolding failed_with
failed_with-cons text err name more = elim (same-cases names_equal text err) [
  | inl (i, f) ↦ rw i refl
  | inr i ↦ rw i refl
]

module _ {S E : Type 0} (hash_slots : ℕ) (servers : Servers S E)
    (silent : (n : ManagedNode) (s : S)
      → (err : List ℕ) × (t : S) × (servers.cluster_slots n s ≡ (redis_error err, t))) where
  ask_nodes-silent :
      (nodes : List ManagedNode) (p : Progress) (m : Manager) (s : S)
      → (q : Progress) × (t : S) × (ask_nodes hash_slots servers nodes p m s ≡ (done q, m, t))
        × ((text : List ℕ)
            → names_under text q.startup_node_errors
              ≡ names_under text p.startup_node_errors
                ++ failed_with text (failures servers nodes s))
  unfolding ask_nodes after_answer failures failed_with error_text
  ask_nodes-silent [] p m s = (p, s, refl, λ text. sym (append-nil _))
  ask_nodes-silent (node ∷ nodes) p m s =
      let (err, t, e) = silent node s in
      let (q, u, f, told) = ask_nodes-silent nodes (with_error err node p) m t in
      (
        q,
        u,
        rw e f,
        λ text.
            told text
            ∙ ap (λ (xs : List (List ℕ)). xs ++ failed_with text (failures servers nodes t))
                (names_under-note_error text err (name_of node) p.startup_node_errors)
            ∙ append_assoc (names_under text p.startup_node_errors)
                (failed_with text ((err, name_of node) ∷ []))
                (failed_with text (failures servers nodes t))
            ∙ ap (λ (xs : List (List ℕ)). names_under text p.startup_node_errors ++ xs)
                (sym (failed_with-cons text err (name_of node) (failures servers nodes t)))
            ∙ rw e refl,
      )

  -- Where every startup node fails with a RedisError, `initialize` marks the startup nodes as not reachable and raises the
  -- exception with their errors: under each error it has the names of just the nodes that failed with it, in the order in
  -- which they were asked.
  pub initialize-cannot_connect :
      (m : Manager) (s : S)
      → (errors : Names (List (List ℕ))) × (t : S) × (initialize hash_slots servers m s
          ≡ (raised (cannot_connect errors), record m { startup_nodes_reachable = false }, t))
        × ((text : List ℕ)
            → names_under text errors ≡ failed_with text (failures servers (chosen_nodes m) s))
  unfolding initialize conclude names_under find listed
  initialize-cannot_connect m s =
      let m' : Manager = record m { startup_nodes_reachable = false } in
      let (q, t, e, told) = ask_nodes-silent (chosen_nodes m) start m' s in
      (q.startup_node_errors, t, rw e refl, told)

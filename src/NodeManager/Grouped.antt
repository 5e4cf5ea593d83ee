-- ===== src/NodeManager/Grouped.antt =====
-- The dicts that `keys_to_nodes_by_slot` of coredis/pool/nodemanager.py makes.
use coredis.Prelude.{
  ℕ, ◌≡◌, ◌≢◌, refl, sym, ap, ◌∙◌, Option, none, some, List, [], ◌∷◌, ◌++◌, ℕ_discrete, inl, inr,
}
use mathlib.Core.Path.{subst}
use coredis.Dict.{find, set_item, same-cases, Distinct, find-set_item, Distinct-set_item}
use coredis.HashSlot.{hash_slot}
use coredis.NodeManager.{ManagedNode, Manager, names_equal, name_of, node_from_slot}
use coredis.NodeManager.Keys.{
  Grouping, or_empty, append_key, put_key, group_keys, keys_to_nodes_by_slot, some-bind,
}

-- The groups of keys of a node.
unfoldable pub groups_of : List ℕ → Grouping → List (ℕ × List (List ℕ))
groups_of name mapping = or_empty (find names_equal name mapping)

-- No name and, under a name, no slot stands there twice, and no group is empty.
pub record IsGrouped (d : Grouping) : Type 0 where
  pub names : Distinct names_equal d
  pub slots : (name : List ℕ) → Distinct ℕ_discrete (groups_of name d)
  pub filled :
      (name : List ℕ) (slot : ℕ) (keys : List (List ℕ))
      → find ℕ_discrete slot (groups_of name d) ≡ some keys
      → keys ≢ []

-- What holds of the groups of each node holds with other groups under one name, if it holds of these.
groups_of-set_item :
    (P : List (ℕ × List (List ℕ)) → Type 0) (name other : List ℕ)
    (groups : List (ℕ × List (List ℕ))) (d : Grouping)
    → P groups
    → P (groups_of name d)
    → P (groups_of name (set_item names_equal other groups d))
unfolding groups_of or_empty
groups_of-set_item P name other groups d h k = elim (same-cases names_equal name other) [
  | inl (e, f) ↦
      subst P (sym (ap or_empty (find-set_item names_equal name other groups d) ∙ rw e refl)) h
  | inr e ↦
      subst P (sym (ap or_empty (find-set_item names_equal name other groups d) ∙ rw e refl)) k
]

not_nil : {A : Type 0} (xs : List A) (x : A) → xs ++ x ∷ [] ≢ []
not_nil [] x e = cc
not_nil (y ∷ xs) x e = cc

find_written :
    (slot s : ℕ) (old : List (List ℕ)) (k : List ℕ) (groups : List (ℕ × List (List ℕ)))
    → ((ks : List (List ℕ)) → find ℕ_discrete s groups ≡ some ks → ks ≢ [])
    → (ks : List (List ℕ))
    → find ℕ_discrete s (set_item ℕ_discrete slot (old ++ k ∷ []) groups) ≡ some ks
    → ks ≢ []
find_written slot s old k groups h ks e =
    let found = sym (find-set_item ℕ_discrete s slot (old ++ k ∷ []) groups) ∙ e in
    elim (same-cases ℕ_discrete s slot) [
      | inl (i, j) ↦
          let this : some (old ++ k ∷ []) ≡ some ks = rw i at found in
          let that : old ++ k ∷ [] ≡ ks = cc in rw (← that) (not_nil old k)
      | inr i ↦ h ks (rw i at found)
    ]

append_key-IsGrouped :
    (name : List ℕ) (slot : ℕ) (k : List ℕ) (d : Grouping)
    → IsGrouped d
    → IsGrouped (append_key name slot k d)
unfolding append_key groups_of
append_key-IsGrouped name slot k d g =
    let by_slot = groups_of name d in
    let keys = or_empty (find ℕ_discrete slot by_slot) ++ k ∷ [] in
    let groups = set_item ℕ_discrete slot keys by_slot in
    record {
      names = Distinct-set_item names_equal name groups d g.names;
      slots = λ n.
          groups_of-set_item (Distinct ℕ_discrete) n name groups d
            (Distinct-set_item ℕ_discrete slot keys by_slot (g.slots name)) (g.slots n);
      filled = λ n s.
          groups_of-set_item (λ gs. (ks : List (List ℕ)) → find ℕ_discrete s gs ≡ some ks → ks ≢ [])
            n name groups d
            (find_written slot s (or_empty (find ℕ_discrete slot by_slot)) k by_slot
              (g.filled name s))
            (g.filled n s);
    }

put_key-IsGrouped :
    (node : Option ManagedNode) (slot : ℕ) (k : List ℕ) (d : Grouping)
    → IsGrouped d
    → IsGrouped (put_key node slot k d)
unfolding put_key
put_key-IsGrouped none slot k d g = g
put_key-IsGrouped (some node) slot k d g = append_key-IsGrouped (name_of node) slot k d g

group_keys-IsGrouped :
    (m : Manager) (ks : List (List ℕ)) (d mapping : Grouping)
    → group_keys m ks d ≡ some mapping
    → IsGrouped d
    → IsGrouped mapping
unfolding group_keys
group_keys-IsGrouped m [] d mapping h g =
    let same_mapping : d ≡ mapping = cc in subst IsGrouped same_mapping g
group_keys-IsGrouped m (k ∷ ks) d mapping h g =
    let (s, e, f) = some-bind (hash_slot k) _ mapping h in
    let (node, i, j) = some-bind (node_from_slot m s) _ mapping f in
    group_keys-IsGrouped m ks (put_key node s k d) mapping j (put_key-IsGrouped node s k d g)

pub keys_to_nodes_by_slot-IsGrouped :
    (m : Manager) (keys : List (List ℕ)) (mapping : Grouping)
    → keys_to_nodes_by_slot m keys ≡ some mapping
    → IsGrouped mapping
unfolding keys_to_nodes_by_slot groups_of or_empty find
keys_to_nodes_by_slot-IsGrouped m keys mapping h =
    group_keys-IsGrouped m keys [] mapping h (record {
      names = tt;
      slots = λ name. tt;
      filled = λ name slot ks e. let never : none ≡ some ks = e in cc;
    })

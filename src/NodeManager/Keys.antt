-- ===== src/NodeManager/Keys.antt =====
-- `NodeManager.keys_to_nodes_by_slot` of coredis/pool/nodemanager.py. A key is its bytes, and `none`
-- an exception: a KeyError for a slot that has no nodes.
use coredis.Prelude.{
  ℕ, ◌≡◌, refl, sym, ◌∙◌, Bool, false, ◌&&◌, Option, none, some, List, [], ◌∷◌, ◌++◌, ℕ_discrete,
  if◌then◌else◌, Bool-cases, inl, inr,
}
use coredis.Prelude.Partial.{◌>>=◌}
use mathlib.Core.List.{append_assoc, append-nil}
use coredis.Dict.{find, set_item, same, same-cases, find-set_item}
use coredis.HashSlot.{hash_slot}
use coredis.NodeManager.{ManagedNode, name_of, Names, Slots, names_equal, Manager, node_from_slot}

abbrev pub Grouping : Type 0
Grouping = Names (Slots (List (List ℕ)))

-- What `setdefault(key, default)` gives, of an empty default.
unfoldable pub or_empty : {A : Type 0} → Option (List A) → List A
or_empty none = []
or_empty (some xs) = xs

-- `mapping.setdefault(name, {}).setdefault(slot, []).append(k)`
unfoldable pub append_key : List ℕ → ℕ → List ℕ → Grouping → Grouping
unfolding or_empty
append_key name slot k mapping =
    let by_slot = or_empty (find names_equal name mapping) in
    let keys = or_empty (find ℕ_discrete slot by_slot) in
    set_item names_equal name (set_item ℕ_discrete slot (keys ++ k ∷ []) by_slot) mapping

-- `if node:`
unfoldable pub put_key : Option ManagedNode → ℕ → List ℕ → Grouping → Grouping
unfolding append_key name_of
put_key none slot k mapping = mapping
put_key (some node) slot k mapping = append_key (name_of node) slot k mapping

unfoldable pub group_keys : Manager → List (List ℕ) → Grouping → Option Grouping
unfolding put_key hash_slot node_from_slot
group_keys m [] mapping = some mapping
group_keys m (k ∷ ks) mapping = hash_slot k >>= λ slot.
    node_from_slot m slot >>= λ node. group_keys m ks (put_key node slot k mapping)

unfoldable pub keys_to_nodes_by_slot : Manager → List (List ℕ) → Option Grouping
unfolding group_keys
keys_to_nodes_by_slot m keys = group_keys m keys []

-- The keys under a name and a slot.
unfoldable pub keys_under : List ℕ → ℕ → Grouping → List (List ℕ)
keys_under name slot mapping =
    or_empty (find ℕ_discrete slot (or_empty (find names_equal name mapping)))

-- The slot of the key is this one, and the primary of the slot has this name.
unfoldable pub goes_to : Manager → List ℕ → ℕ → List ℕ → Bool
goes_to m name slot k = elim (hash_slot k) [
  | none ↦ false
  | some s ↦ elim (node_from_slot m s) [
    | some (some node) ↦ same names_equal name (name_of node) && same ℕ_discrete slot s
    | _ ↦ false
  ]
]

unfoldable pub keep_keys : (List ℕ → Bool) → List (List ℕ) → List (List ℕ)
keep_keys test [] = []
keep_keys test (k ∷ ks) = let later = keep_keys test ks in if test k then k ∷ later else later

keys_under-append_key :
    (name other : List ℕ) (slot s : ℕ) (k : List ℕ) (d : Grouping)
    → keys_under name slot (append_key other s k d) ≡ (
        if same names_equal name other && same ℕ_discrete slot s
        then keys_under name slot d ++ k ∷ []
        else keys_under name slot d)
unfolding keys_under append_key
keys_under-append_key name other slot s k d =
    let by_slot = or_empty (find names_equal other d) in
    let keys = or_empty (find ℕ_discrete s by_slot) in
    let outer =
      find-set_item names_equal name other (set_item ℕ_discrete s (keys ++ k ∷ []) by_slot) d in
    let inner = find-set_item ℕ_discrete slot s (keys ++ k ∷ []) by_slot in
    elim (same-cases names_equal name other) [
      | inr e ↦ rw (outer, e) refl
      | inl (e, f) ↦ elim (same-cases ℕ_discrete slot s) [
        | inl (g, h) ↦ rw (outer, e, or_empty, inner, g, f, h) refl
        | inr g ↦ rw (outer, e, or_empty, inner, g, f) refl
      ]
    ]

pub some-bind :
    {A B : Type 0} (o : Option A) (f : A → Option B) (b : B)
    → (o >>= f) ≡ some b
    → (a : A) × (o ≡ some a) × (f a ≡ some b)
some-bind none f b h = cc
some-bind (some a) f b h = (a, refl, h)

module _ (m : Manager) where
  put_key_lem :
      (name : List ℕ) (slot s : ℕ) (k : List ℕ) (node : Option ManagedNode) (d : Grouping)
      → hash_slot k ≡ some s
      → node_from_slot m s ≡ some node
      → keys_under name slot (put_key node s k d) ≡ (
          if goes_to m name slot k
          then keys_under name slot d ++ k ∷ []
          else keys_under name slot d)
  unfolding goes_to put_key
  put_key_lem name slot s k none d e f = rw (e, goes_to, f) refl
  put_key_lem name slot s k (some node) d e f =
      rw (e, goes_to, f) (keys_under-append_key name (name_of node) slot s k d)

  group_keys_lem :
      (name : List ℕ) (slot : ℕ) (ks : List (List ℕ)) (d mapping : Grouping)
      → group_keys m ks d ≡ some mapping
      → keys_under name slot mapping ≡ keys_under name slot d ++ keep_keys (goes_to m name slot) ks
  unfolding group_keys keep_keys
  group_keys_lem name slot [] d mapping h =
      let same_mapping : d ≡ mapping = cc in rw (← same_mapping) (sym (append-nil _))
  group_keys_lem name slot (k ∷ ks) d mapping h =
      let (s, e, f) = some-bind (hash_slot k) _ mapping h in
      let (node, g, i) = some-bind (node_from_slot m s) _ mapping f in
      let later = group_keys_lem name slot ks (put_key node s k d) mapping i in
      let here = put_key_lem name slot s k node d e g in
      elim (Bool-cases (goes_to m name slot k)) [
        | inl yes_here ↦
            later
            ∙ rw (here, yes_here)
                (append_assoc (keys_under name slot d) (k ∷ [])
                  (keep_keys (goes_to m name slot) ks))
        | inr not_here ↦ later ∙ rw (here, not_here) refl
      ]

  -- Where no exception is raised, the keys under a node's name and a slot are those of the keys
  -- given that hash to the slot, if the slot's primary has the name, in their order.
  pub keys_to_nodes_by_slot_lem :
      (name : List ℕ) (slot : ℕ) (keys : List (List ℕ)) (mapping : Grouping)
      → keys_to_nodes_by_slot m keys ≡ some mapping
      → keys_under name slot mapping ≡ keep_keys (goes_to m name slot) keys
  unfolding keys_to_nodes_by_slot keys_under find or_empty
  keys_to_nodes_by_slot_lem name slot keys mapping h = group_keys_lem name slot keys [] mapping h

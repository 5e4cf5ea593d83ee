-- ===== src/Cluster/Sent.antt =====
-- What `_split_args_over_nodes` of coredis/client/cluster.py sends to each node.
use coredis.Prelude.{
  ℕ, zero, suc, ◌+◌, ◌-◌, ◌≡◌, ◌≢◌, refl, sym, ap, ◌∙◌, Bool, true, false, Option, none, some, List,
  [], ◌∷◌, ◌++◌, map, take, drop, if◌then◌else◌, ℕ_discrete, Bool-cases, inl, inr, arith,
  take-append-drop, drop-add,
}
use mathlib.Core.Path.{subst}
use coredis.Dict.{find, same, same-cases, Distinct}
use coredis.Resp.Packer.{raw}
use coredis.KeySpec.Spec.{extracted}
use coredis.NodeManager.{ManagedNode, Manager, names_equal}
use coredis.NodeManager.Keys.{
  Grouping, or_empty, keys_to_nodes_by_slot, keys_under, goes_to, keep_keys,
  keys_to_nodes_by_slot_lem,
}
use coredis.NodeManager.Grouped.{groups_of, keys_to_nodes_by_slot-IsGrouped}
use coredis.Cluster.{Router, is_split}
use coredis.Cluster.Split.{
  Args, Portions, portion_args, portioned, unmapped, around, grouped, checked, split_between,
  between_indices, split_bytes, split_by_keys, split_keys, same_args, index, last_of, keys_of,
  raw_bytes, forgotten_keys, split_args_over_nodes,
}
use coredis.Cluster.Portions.{portions_of, slots_of, portion, portion_args_lem, entries-slots}

unfoldable pub is_empty : Args → Bool
is_empty [] = true
is_empty (k ∷ keys) = false

unfoldable pub occurrences : ℕ → List ℕ → ℕ
unfolding same
occurrences s [] = 0
occurrences s (t ∷ ts) =
    let later = occurrences s ts in if same ℕ_discrete s t then suc later else later

-- A slot stands once among those of a node where one of its keys goes there, and else never.
unfoldable pub once_unless : Bool → ℕ
once_unless true = 0
once_unless false = 1

same_args-eq : (a b : Args) → same_args a b ≡ true → a ≡ b
unfolding same_args
same_args-eq [] [] h = refl
same_args-eq [] (b ∷ bs) h = cc
same_args-eq (a ∷ more) [] h = cc
same_args-eq (a ∷ more) (b ∷ bs) h = elim (same-cases names_equal a b) [
  | inl (e, f) ↦ let later = same_args-eq more bs (rw e at h) in cc
  | inr e ↦ let never : false ≡ true = rw e at h in cc
]

-- The arguments around a slice that is not empty are what is left of them.
around_slice :
    (n start end : ℕ) (args : Args) (k : List ℕ) (keys : Args)
    → n ≡ suc end - start
    → take n (drop start args) ≡ k ∷ keys
    → take start args ++ ((k ∷ keys) ++ drop (suc end) args) ≡ args
around_slice zero start end args k keys e h = cc
around_slice (suc n) start end args k keys e h =
    let up : suc end ≡ start + suc n = omega (arith, e) in
    let rest : drop (suc end) args ≡ drop (suc n) (drop start args) =
      ap (λ i. drop i args) up ∙ drop-add start (suc n) args in
    ap (λ ks. take start args ++ (ks ++ drop (suc end) args)) (sym h)
    ∙ ap (λ ys. take start args ++ (take (suc n) (drop start args) ++ ys)) rest
    ∙ ap (λ xs. take start args ++ xs) (take-append-drop (suc n) (drop start args))
    ∙ take-append-drop start args

filled_once : (keys : Args) → keys ≢ [] → 1 ≡ once_unless (is_empty keys)
unfolding once_unless is_empty
filled_once [] h = absurd (h refl)
filled_once (k ∷ keys) h = refl

occurrences-slots_of :
    (s : ℕ) (groups : List (ℕ × Args))
    → Distinct ℕ_discrete groups
    → ((keys : Args) → find ℕ_discrete s groups ≡ some keys → keys ≢ [])
    → occurrences s (slots_of groups) ≡ once_unless (is_empty (or_empty (find ℕ_discrete s groups)))
unfolding occurrences slots_of once_unless is_empty or_empty find
occurrences-slots_of s [] d h = refl
occurrences-slots_of s ((t, keys) ∷ groups) d h = elim (same-cases ℕ_discrete s t) [
  | inl (e, f) ↦
      let nothing : find ℕ_discrete s groups ≡ none = ap (λ i. find ℕ_discrete i groups) f ∙ d.0 in
      let later =
        occurrences-slots_of s groups d.1
          (λ ks k. let never : none ≡ some ks = sym nothing ∙ k in cc) in
      rw e (ap suc (later ∙ rw nothing refl) ∙ filled_once keys (h keys (rw e refl)))
  | inr e ↦ rw e (occurrences-slots_of s groups d.1 (λ ks k. h ks (rw e k)))
]

-- What a node is sent, of the keys `keys` between `front` and `back`: one portion for each of the slots.
abbrev pub SentTo : Manager → Args → Args → Args → List ℕ → List Args → List ℕ → Type 0
SentTo m front keys back name sent slots =
    (sent ≡ map (λ slot. front ++ (keep_keys (goes_to m name slot) keys ++ back)) slots)
    × ((slot : ℕ)
        → occurrences slot slots ≡ once_unless (is_empty (keep_keys (goes_to m name slot) keys)))

map-map :
    {A B C : Type 0} (f : B → C) (g : A → B) (xs : List A)
    → map f (map g xs) ≡ map (λ x. f (g x)) xs
map-map f g [] = refl
map-map f g (x ∷ xs) = ap (λ ys. f (g x) ∷ ys) (map-map f g xs)

map-cong :
    {A B : Type 0} (f g : A → B) → ((x : A) → f x ≡ g x) → (xs : List A) → map f xs ≡ map g xs
map-cong f g h [] = refl
map-cong f g h (x ∷ xs) = cc (h x, map-cong f g h xs)

grouped-SentTo :
    (m : Manager) (front keys back : Args) (mapping : Grouping) (name : List ℕ)
    → keys_to_nodes_by_slot m keys ≡ some mapping
    → SentTo m front keys back name
        (portions_of name (portion_args front back mapping []))
        (slots_of (groups_of name mapping))
unfolding portions_of find or_empty portion
grouped-SentTo m front keys back mapping name h =
    let groups = groups_of name mapping in
    let sound = keys_to_nodes_by_slot-IsGrouped m keys mapping h in
    let under : (slot : ℕ)
        → or_empty (find ℕ_discrete slot groups) ≡ keep_keys (goes_to m name slot) keys =
      λ slot. unfold keys_under groups_of in keys_to_nodes_by_slot_lem m name slot keys mapping h in
    (
      portion_args_lem name front back mapping [] sound.names
          ∙ ap (map (portion front back))
              (entries-slots groups groups (λ s ks e. e) (sound.slots name))
          ∙ map-map (portion front back) (λ slot. (slot, or_empty (find ℕ_discrete slot groups)))
              (slots_of groups)
          ∙ map-cong _ _ (λ slot. ap (λ ks. front ++ (ks ++ back)) (under slot)) (slots_of groups),
      λ slot.
          occurrences-slots_of slot groups (sound.slots name) (sound.filled name slot)
          ∙ ap (λ ks. once_unless (is_empty ks)) (under slot),
    )

-- The keys stand between two parts of the arguments, and each node is sent what it has to.
abbrev pub IsSent : Manager → Args → Args → Portions → Type 0
IsSent m args keys portions =
    (front : Args) × (back : Args) × (front ++ (keys ++ back) ≡ args)
    × ((name : List ℕ)
        → (slots : List ℕ) × SentTo m front keys back name (portions_of name portions) slots)

grouped-IsSent :
    (m : Manager) (front keys back args forgotten lost : Args) (portions : Portions)
    (o : Option Grouping)
    → keys_to_nodes_by_slot m keys ≡ o
    → front ++ (keys ++ back) ≡ args
    → grouped front back forgotten o ≡ portioned portions lost
    → IsSent m args keys portions
unfolding grouped
grouped-IsSent m front keys back args forgotten lost portions none h e p = cc
grouped-IsSent m front keys back args forgotten lost portions (some mapping) h e p =
    let these : portion_args front back mapping [] ≡ portions = cc in
    subst (IsSent m args keys) these (
      front,
      back,
      e,
      λ name. (slots_of (groups_of name mapping), grouped-SentTo m front keys back mapping name h),
    )

split_between-IsSent :
    (m : Manager) (args : Args) (k : List ℕ) (keys forgotten lost : Args) (start end : ℕ)
    (portions : Portions)
    → split_between m args (k ∷ keys) forgotten start end ≡ portioned portions lost
    → IsSent m args (k ∷ keys) portions
unfolding split_between around checked
split_between-IsSent m args k keys forgotten lost start end portions h =
    let slice = take (suc end - start) (drop start args) in
    elim (Bool-cases (same_args slice (k ∷ keys))) [
      | inl e ↦
          grouped-IsSent m (take start args) (k ∷ keys) (drop (suc end) args) args forgotten lost
            portions (keys_to_nodes_by_slot m (k ∷ keys)) refl
            (around_slice (suc end - start) start end args k keys refl
              (same_args-eq slice (k ∷ keys) e))
            (rw e at h)
      | inr e ↦ let never : unmapped ≡ portioned portions lost = rw e at h in cc
    ]

between_indices-IsSent :
    (m : Manager) (args : Args) (k : List ℕ) (keys forgotten lost : Args) (start end : Option ℕ)
    (portions : Portions)
    → between_indices m args (k ∷ keys) forgotten start end ≡ portioned portions lost
    → IsSent m args (k ∷ keys) portions
unfolding between_indices
between_indices-IsSent m args k keys forgotten lost (some start) (some end) portions h =
    split_between-IsSent m args k keys forgotten lost start end portions h
between_indices-IsSent m args k keys forgotten lost none end portions h = cc
between_indices-IsSent m args k keys forgotten lost (some start) none portions h = cc

pub raw_bytes_lem : (keys : Args) → raw_bytes (map (λ k. raw k) keys) ≡ some keys
unfolding raw_bytes
raw_bytes_lem [] = refl
raw_bytes_lem (k ∷ keys) = rw (raw_bytes_lem keys) refl

-- Where a command that is split over the nodes has keys and no exception is raised, its arguments are the keys between
-- a front and a back, and each node is sent one portion for each slot that has it for a primary and has a key among them:
-- the front, the keys of the slot in their order, and the back.
pub split_args_over_nodes-IsSent :
    (r : Router) (m : Manager) (nodes : List ManagedNode) (command : List ℕ) (args : Args)
    (k : List ℕ) (keys forgotten : Args) (portions : Portions)
    → is_split r command ≡ true
    → keys_of command args false ≡ extracted (map (λ key. raw key) (k ∷ keys))
    → split_args_over_nodes r m nodes command args ≡ portioned portions forgotten
    → IsSent m args (k ∷ keys) portions
unfolding split_args_over_nodes split_keys split_by_keys
split_args_over_nodes-IsSent r m nodes command args k keys forgotten portions h e f =
    let keyed : split_args_over_nodes r m nodes command args
        ≡ split_by_keys m args (k ∷ keys) (forgotten_keys r command (k ∷ keys)) =
      rw (h, e) (ap (split_bytes r m command args) (raw_bytes_lem (k ∷ keys))) in
    between_indices-IsSent m args k keys (forgotten_keys r command (k ∷ keys)) forgotten
      (index k args) (index (last_of k keys) args) portions (sym keyed ∙ f)

-- ===== src/Cluster/Portions.antt =====
-- The portions that `_split_args_over_nodes` of coredis/client/cluster.py makes of groups of keys.
use coredis.Prelude.{
  ℕ, ◌≡◌, refl, sym, ap, ◌∙◌, false, some, List, [], ◌∷◌, ◌++◌, map, ℕ_discrete, inl, inr,
}
use mathlib.Core.List.{append_assoc, append-nil}
use coredis.Dict.{
  find, set_item, same, same-cases, same_refl, find-cons_self, find-cons_later, Distinct,
  find-set_item,
}
use coredis.NodeManager.{Names, names_equal}
use coredis.NodeManager.Keys.{Grouping, or_empty}
use coredis.NodeManager.Grouped.{groups_of}
use coredis.Cluster.Split.{Args, Portions, add_portions, portion_args}

-- The portions of a node, and the slots of its groups of keys.
unfoldable pub portions_of : List ℕ → Portions → List Args
portions_of name portions = or_empty (find names_equal name portions)

unfoldable pub slots_of : List (ℕ × Args) → List ℕ
slots_of [] = []
slots_of ((slot, keys) ∷ groups) = slot ∷ slots_of groups

unfoldable pub portion : Args → Args → ℕ × Args → Args
portion front back (slot, keys) = front ++ (keys ++ back)

or_empty-set_item :
    {V : Type 0} (name : List ℕ) (here : List V) (d : Names (List V))
    → or_empty (find names_equal name (set_item names_equal name here d)) ≡ here
unfolding or_empty
or_empty-set_item name here d =
    ap or_empty (find-set_item names_equal name name here d) ∙ rw (same_refl names_equal name) refl

-- A node's portions after its groups are added, and the other nodes'.
add_portions_self :
    (name : List ℕ) (front back : Args) (groups : List (ℕ × Args)) (portions : Portions)
    → portions_of name (add_portions name front back groups portions)
      ≡ portions_of name portions ++ map (portion front back) groups
unfolding portions_of add_portions portion or_empty
add_portions_self name front back [] portions = sym (append-nil (portions_of name portions))
add_portions_self name front back ((slot, keys) ∷ groups) portions =
    let here = portions_of name portions ++ (front ++ (keys ++ back)) ∷ [] in
    add_portions_self name front back groups (set_item names_equal name here portions)
    ∙ rw (or_empty-set_item name here portions) (
        append_assoc (portions_of name portions) ((front ++ (keys ++ back)) ∷ [])
          (map (portion front back) groups))

add_portions_other :
    (name other : List ℕ) (front back : Args) (groups : List (ℕ × Args)) (portions : Portions)
    → same names_equal name other ≡ false
    → find names_equal name (add_portions other front back groups portions)
      ≡ find names_equal name portions
unfolding add_portions
add_portions_other name other front back [] portions h = refl
add_portions_other name other front back ((slot, keys) ∷ groups) portions h =
    let here = or_empty (find names_equal other portions) ++ (front ++ (keys ++ back)) ∷ [] in
    add_portions_other name other front back groups (set_item names_equal other here portions) h
    ∙ find-set_item names_equal name other here portions
    ∙ rw h refl

pub portion_args_lem :
    (name : List ℕ) (front back : Args) (mapping : Grouping) (portions : Portions)
    → Distinct names_equal mapping
    → portions_of name (portion_args front back mapping portions)
      ≡ portions_of name portions ++ map (portion front back) (groups_of name mapping)
unfolding portion_args groups_of portions_of find or_empty
portion_args_lem name front back [] portions d = sym (append-nil (portions_of name portions))
portion_args_lem name front back ((n, groups) ∷ mapping) portions d =
    let added = add_portions n front back groups portions in
    let later = portion_args_lem name front back mapping added d.1 in
    elim (same-cases names_equal name n) [
      | inl (e, f) ↦
          let nothing : groups_of name mapping ≡ [] =
            ap or_empty (ap (λ j. find names_equal j mapping) f ∙ d.0) in
          let here : groups ≡ groups_of name ((n, groups) ∷ mapping) = rw e refl in
          later
          ∙ rw nothing (append-nil (portions_of name added))
          ∙ ap (λ j. portions_of name (add_portions j front back groups portions)) (sym f)
          ∙ add_portions_self name front back groups portions
          ∙ ap (λ gs. portions_of name portions ++ map (portion front back) gs) here
      | inr e ↦
          let same_before : portions_of name added ≡ portions_of name portions =
            ap or_empty (add_portions_other name n front back groups portions e) in
          let here : groups_of name mapping ≡ groups_of name ((n, groups) ∷ mapping) = rw e refl in
          later
          ∙ ap (λ before. before ++ map (portion front back) (groups_of name mapping)) same_before
          ∙ ap (λ gs. portions_of name portions ++ map (portion front back) gs) here
    ]

-- A dict of lists by its keys: each entry is what its key finds.
pub entries-slots :
    (entries groups : List (ℕ × Args))
    → ((slot : ℕ) (keys : Args)
        → find ℕ_discrete slot groups ≡ some keys
        → find ℕ_discrete slot entries ≡ some keys)
    → Distinct ℕ_discrete groups
    → groups ≡ map (λ slot. (slot, or_empty (find ℕ_discrete slot entries))) (slots_of groups)
unfolding slots_of or_empty
entries-slots entries [] h d = refl
entries-slots entries ((slot, keys) ∷ groups) h d =
    let here : find ℕ_discrete slot entries ≡ some keys =
      h slot keys (find-cons_self ℕ_discrete slot keys groups) in
    let later =
      entries-slots entries groups
        (λ s ks e. h s ks (find-cons_later ℕ_discrete s slot ks keys groups d.0 e)) d.1 in
    rw here (ap (λ gs. (slot, keys) ∷ gs) later)

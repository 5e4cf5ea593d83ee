-- ===== src/KeySpec/Within.antt =====
-- The keys of a command are among its arguments, behind its name.
use coredis.Prelude.{
  ℕ, zero, suc, ◌-◌, ◌≡◌, refl, ap, ◌∙◌, Bool, true, false, ◌&&◌, Option, none, some, List, [], ◌∷◌,
  ◌++◌, Bool-cases, Option-cases, inl, inr, get_elem?,
}
use coredis.Resp.Packer.{Argument}
use coredis.KeySpec.Slices.{
  slice, Within, Within-trans, slice-Within, pick-Within, get-Within, append-Within,
}
use coredis.KeySpec.Spec.{
  Spec, one, range, stepped, both, streams, last_keys, behind, Extraction, extracted, failed, ◌>>=◌,
  eval, item, resolve, or_value_error, first_half, has_keyword, when_keyword, keyword_index,
  last_index, streams_keys, migrate_keys, key_behind, streams_keyword, keys_keyword,
}
use coredis.KeySpec.Readonly.{readonly}
use coredis.KeySpec.All.{all_keys, all_keys_second, all_keys_third}
use coredis.KeySpec.Extract.{
  find_spec, command_name, apply_spec, choose_spec, extract_keys, every_entry, found_entry,
}

-- No part of the tuple begins at the name of the command.
unfoldable pub starts_late : Spec → Bool
starts_late (one zero) = false
starts_late (range zero j) = false
starts_late (stepped zero j step) = false
starts_late (both s t) = starts_late s && starts_late t
starts_late _ = true

pub both_true : (a b : Bool) → (a && b) ≡ true → (a ≡ true) × (b ≡ true)
both_true true b h = (refl, h)
both_true false b h = cc

-- What a chain that succeeded has gone through.
pub bind-extracted :
    {A B : Type 0} (m : Extraction A) (f : A → Extraction B) (b : B)
    → (m >>= f) ≡ extracted b
    → (a : A) × (m ≡ extracted a) × (f a ≡ extracted b)
bind-extracted (extracted a) f b h = (a, refl, h)
bind-extracted (failed e) f b h = cc

item-Within :
    (i : ℕ) (x a : Argument) (args : List Argument)
    → item (suc i) (x ∷ args) ≡ extracted a
    → Within (a ∷ []) args
unfolding item
item-Within i x a args h = elim (Option-cases (get_elem? args i)) [
  | inl e ↦ let no_item : failed _ ≡ extracted a = rw (e, item) at h in cc
  | inr (v, e) ↦
      let same : extracted v ≡ extracted a = rw (e, item) at h in
      let as_item : v ≡ a = cc in get-Within i args a (e ∙ ap some as_item)
]

nothing_Within : (args : List Argument) → Within [] args
unfolding Within
nothing_Within args a g = absurd g

nothing-Within :
    (ks args : List Argument)
    → ◌≡◌ {A = Extraction (List Argument)} (extracted []) (extracted ks)
    → Within ks args
nothing-Within ks args h = let same : [] ≡ ks = cc in rw (← same) (nothing_Within args)

-- No keys where the keyword is not there.
when_keyword-Within :
    (keyword : List ℕ) (all : List Argument) (m : Extraction (List Argument))
    (ks args : List Argument)
    → when_keyword keyword all m ≡ extracted ks
    → (m ≡ extracted ks → Within ks args)
    → Within ks args
unfolding when_keyword
when_keyword-Within keyword all m ks args h f = elim (Bool-cases (has_keyword keyword all)) [
  | inl e ↦ f (rw e at h)
  | inr e ↦ nothing-Within ks args (rw e at h)
]

same_keys-Within :
    (ks ls args : List Argument)
    → ◌≡◌ {A = Extraction (List Argument)} (extracted ls) (extracted ks)
    → Within ls args
    → Within ks args
same_keys-Within ks ls args h w = let same : ls ≡ ks = cc in rw (← same) w

eval-Within :
    (s : Spec) (x : Argument) (args ks : List Argument)
    → starts_late s ≡ true
    → eval s (x ∷ args) ≡ extracted ks
    → Within ks args
unfolding eval starts_late streams_keys migrate_keys key_behind first_half
eval-Within (one zero) x args ks late h = cc
eval-Within (range zero j) x args ks late h = cc
eval-Within (stepped zero j step) x args ks late h = cc
eval-Within (one (suc i)) x args ks late h =
    let (a, e, f) = bind-extracted (item (suc i) (x ∷ args)) _ ks h in
    same_keys-Within ks (a ∷ []) args f (item-Within i x a args e)
eval-Within (range (suc i) j) x args ks late h =
    let (end, e, f) = bind-extracted (resolve (suc i) j (x ∷ args)) _ ks h in
    same_keys-Within ks _ args f (slice-Within i end x args)
eval-Within (stepped (suc i) j step) x args ks late h =
    let (end, e, f) = bind-extracted (resolve (suc i) j (x ∷ args)) _ ks h in
    same_keys-Within ks _ args f (
      Within-trans _ (slice (suc i) end (x ∷ args)) args
        (pick-Within (step - 1) 0 (slice (suc i) end (x ∷ args))) (slice-Within i end x args))
eval-Within (both s t) x args ks late h =
    let (early, later) = both_true (starts_late s) (starts_late t) late in
    let (left, e, f) = bind-extracted (eval s (x ∷ args)) _ ks h in
    let (right, g, k) = bind-extracted (eval t (x ∷ args)) _ ks f in
    same_keys-Within ks (left ++ right) args k (
      append-Within left right args (eval-Within s x args left early e)
        (eval-Within t x args right later g))
eval-Within (streams start) x args ks late h = when_keyword-Within _ (x ∷ args) _ ks args h λ g.
    let (kwpos, e, f) = bind-extracted (keyword_index streams_keyword start (x ∷ args)) _ ks g in
    same_keys-Within ks _ args f (slice-Within kwpos _ x args)
eval-Within last_keys x args ks late h = when_keyword-Within _ (x ∷ args) _ ks args h λ g.
    let (kwpos, e, f) =
      bind-extracted (or_value_error (last_index keys_keyword (x ∷ args))) _ ks g in
    same_keys-Within ks _ args f (slice-Within kwpos _ x args)
eval-Within (behind keyword start) x args ks late h =
    when_keyword-Within keyword (x ∷ args) _ ks args h λ g.
      let (kwpos, e, f) = bind-extracted (keyword_index keyword start (x ∷ args)) _ ks g in
      let (a, p, q) = bind-extracted (item (suc kwpos) (x ∷ args)) _ ks f in
      same_keys-Within ks (a ∷ []) args q (item-Within kwpos x a args p)

late : List ℕ × Spec → Bool
late (key, spec) = starts_late spec

readonly-late : every_entry late readonly ≡ true
unfolding every_entry late readonly starts_late
readonly-late = refl

all_late : every_entry late all_keys ≡ true
unfolding every_entry late all_keys all_keys_second all_keys_third starts_late
all_late = refl

found_late :
    (name : List ℕ) (spec : Spec) (table : List (List ℕ × Spec))
    → every_entry late table ≡ true
    → find_spec name table ≡ some spec
    → starts_late spec ≡ true
unfolding late
found_late name spec table h f = let (key, pass, e) = found_entry late name spec table h f in pass

apply-Within :
    (spec : Option Spec) (x : Argument) (args ks : List Argument)
    → ((s : Spec) → spec ≡ some s → starts_late s ≡ true)
    → apply_spec spec (x ∷ args) ≡ extracted ks
    → Within ks args
unfolding apply_spec
apply-Within none x args ks f h = nothing-Within ks args h
apply-Within (some s) x args ks f h = eval-Within s x args ks (f s refl) h

chosen_late :
    (name : List ℕ) (b : Bool) (s : Spec)
    → choose_spec (find_spec name readonly) b (find_spec name all_keys) ≡ some s
    → starts_late s ≡ true
unfolding choose_spec
chosen_late name b s h = elim (Option-cases (find_spec name readonly)) [
  | inl e ↦ found_late name s all_keys all_late (rw (choose_spec, e) at h)
  | inr (t, e) ↦ elim (Bool-cases b) [
    | inl yes_readonly ↦
        let same : some t ≡ some s = rw (choose_spec, e, yes_readonly) at h in
        found_late name s readonly readonly-late (e ∙ same)
    | inr not_readonly ↦
        found_late name s all_keys all_late (rw (choose_spec, e, not_readonly) at h)
  ]
]

module _ (encode_name : Argument → List ℕ) where
  -- Whatever the command, and in either table, the keys that are extracted are among the arguments
  -- behind its name.
  pub extract_keys-Within :
      (name : Argument) (args ks : List Argument) (readonly_command : Bool)
      → extract_keys encode_name (name ∷ args) readonly_command ≡ extracted ks
      → Within ks args
  unfolding extract_keys
  extract_keys-Within name [] ks b h = nothing-Within ks [] h
  extract_keys-Within name (arg ∷ args) ks b h =
      apply-Within _ name (arg ∷ args) ks (λ s e. chosen_late (command_name encode_name name) b s e)
        h

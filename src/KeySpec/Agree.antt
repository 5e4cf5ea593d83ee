-- ===== src/KeySpec/Agree.antt =====
-- What a read-only command reads is among what the command touches.
use coredis.Prelude.{
  ℕ, ◌≡◌, refl, ap, sym, ◌∙◌, Bool, true, false, ◌&&◌, ◌||◌, Option, none, some, List, [], ◌∷◌,
  ◌++◌, ◌==◌, arith, Option-cases, ◌⊎◌, inl, inr,
}
use coredis.Prelude.Int.{pos, negsuc}
use coredis.Resp.Value.{same_codes}
use coredis.Resp.Packer.{Argument}
use coredis.KeySpec.Slices.{
  Within, Within-refl, Within-trans, Within-append_left, Within-append_right,
}
use coredis.KeySpec.Spec.{
  Spec, Bound, len, len_less, literal, counted, one, range, stepped, both, streams, last_keys,
  behind, extracted, eval,
}
use coredis.KeySpec.Readonly.{readonly}
use coredis.KeySpec.All.{all_keys, all_keys_second, all_keys_third}
use coredis.KeySpec.Extract.{
  find_spec, command_name, apply_spec, choose_spec, extract_keys, every_entry, found_entry,
}
use coredis.KeySpec.Within.{both_true, bind-extracted}

same_bound : Bound → Bound → Bool
same_bound len len = true
same_bound (counted i) (counted j) = i == j
same_bound (literal (pos i)) (literal (pos j)) = i == j
same_bound _ _ = false

-- Enough to compare the entries that the tables have.
same_spec : Spec → Spec → Bool
same_spec (one i) (one j) = i == j
same_spec (range i b) (range j c) = i == j && same_bound b c
same_spec (streams i) (streams j) = i == j
same_spec _ _ = false

part_of : Spec → Spec → Bool
part_of s (both t u) = part_of s t || part_of s u
part_of s t = same_spec s t

same_bound-eq : (b c : Bound) → same_bound b c ≡ true → b ≡ c
unfolding same_bound
same_bound-eq len len h = refl
same_bound-eq (counted i) (counted j) h = ground arith
same_bound-eq len (len_less n) h = cc
same_bound-eq len (literal n) h = cc
same_bound-eq len (counted n) h = cc
same_bound-eq (counted i) len h = cc
same_bound-eq (counted i) (len_less n) h = cc
same_bound-eq (counted i) (literal n) h = cc
same_bound-eq (len_less n) c h = cc
same_bound-eq (literal (pos i)) (literal (pos j)) h = ground arith
same_bound-eq (literal (pos i)) (literal (negsuc j)) h = cc
same_bound-eq (literal (pos i)) len h = cc
same_bound-eq (literal (pos i)) (len_less j) h = cc
same_bound-eq (literal (pos i)) (counted j) h = cc
same_bound-eq (literal (negsuc i)) c h = cc

same_spec-eq : (s t : Spec) → same_spec s t ≡ true → s ≡ t
unfolding same_spec
same_spec-eq (one i) (one j) h = ground arith
same_spec-eq (streams i) (streams j) h = ground arith
same_spec-eq (range i b) (range j c) h =
    let (starts, ends) = both_true (i == j) (same_bound b c) h in
    let same_start : i ≡ j = ground arith in cc (same_start, same_bound-eq b c ends)
same_spec-eq s t h = cc

or_true : (a b : Bool) → (a || b) ≡ true → (a ≡ true) ⊎ (b ≡ true)
or_true true b h = inl refl
or_true false b h = inr h

same_result :
    (s t : Spec) (args ks ls : List Argument)
    → same_spec s t ≡ true
    → eval s args ≡ extracted ks
    → eval t args ≡ extracted ls
    → Within ks ls
same_result s t args ks ls h e f =
    let same : s ≡ t = same_spec-eq s t h in
    let both_same : extracted ks ≡ extracted ls = sym e ∙ ap (λ u. eval u args) same ∙ f in
    let keys_same : ks ≡ ls = cc in rw keys_same (Within-refl ls)

part-Within :
    (s t : Spec) (args ks ls : List Argument)
    → part_of s t ≡ true
    → eval s args ≡ extracted ks
    → eval t args ≡ extracted ls
    → Within ks ls
unfolding part_of eval
part-Within s (both t u) args ks ls h e f =
    let (left, p, g) = bind-extracted (eval t args) _ ls f in
    let (right, q, k) = bind-extracted (eval u args) _ ls g in
    let same : left ++ right ≡ ls = cc in
    elim (or_true (part_of s t) (part_of s u) h) [
      | inl first ↦ rw (← same) (
          Within-trans ks left (left ++ right) (part-Within s t args ks left first e p)
            (Within-append_left left right))
      | inr second ↦ rw (← same) (
          Within-trans ks right (left ++ right) (part-Within s u args ks right second e q)
            (Within-append_right left right))
    ]
part-Within s (one i) args ks ls h e f = same_result s (one i) args ks ls h e f
part-Within s (range i b) args ks ls h e f = same_result s (range i b) args ks ls h e f
part-Within s (stepped i b k) args ks ls h e f = same_result s (stepped i b k) args ks ls h e f
part-Within s (streams i) args ks ls h e f = same_result s (streams i) args ks ls h e f
part-Within s last_keys args ks ls h e f = same_result s last_keys args ks ls h e f
part-Within s (behind w i) args ks ls h e f = same_result s (behind w i) args ks ls h e f

-- The entry of the other table has the entry's keys, or there is none.
part_in : Spec → Option Spec → Bool
part_in s none = false
part_in s (some t) = part_of s t

listed : List ℕ × Spec → Bool
listed (name, s) = part_in s (find_spec name all_keys)

readonly-listed : every_entry listed readonly ≡ true
unfolding every_entry listed readonly all_keys all_keys_second all_keys_third find_spec part_in
    part_of same_spec same_bound
readonly-listed = refl

same_codes-eq : (xs ys : List ℕ) → same_codes xs ys ≡ true → xs ≡ ys
unfolding same_codes
same_codes-eq [] [] h = refl
same_codes-eq [] (y ∷ ys) h = cc
same_codes-eq (x ∷ xs) [] h = cc
same_codes-eq (x ∷ xs) (y ∷ ys) h =
    let (heads, tails) = both_true (x == y) (same_codes xs ys) h in
    let same_head : x ≡ y = ground arith in cc (same_head, same_codes-eq xs ys tails)

part_in-some :
    (s : Spec) (o : Option Spec)
    → part_in s o ≡ true
    → (t : Spec) × (o ≡ some t) × (part_of s t ≡ true)
unfolding part_in
part_in-some s none h = cc
part_in-some s (some t) h = (t, refl, h)

listed_in_all :
    (name : List ℕ) (s : Spec)
    → find_spec name readonly ≡ some s
    → (t : Spec) × (find_spec name all_keys ≡ some t) × (part_of s t ≡ true)
unfolding listed
listed_in_all name s h =
    let (key, pass, e) = found_entry listed name s readonly readonly-listed h in
    let same : key ≡ name = same_codes-eq key name e in
    part_in-some s (find_spec name all_keys) (rw same at pass)

module _ (encode_name : Argument → List ℕ) where
  -- Where both extractions succeed, the keys that a command is taken to read are among those that it
  -- is taken to touch.
  pub readonly-Within :
      (args ks ls : List Argument)
      → extract_keys encode_name args true ≡ extracted ks
      → extract_keys encode_name args false ≡ extracted ls
      → Within ks ls
  unfolding extract_keys apply_spec choose_spec
  readonly-Within [] ks ls h k = let same : ks ≡ ls = cc in rw same (Within-refl ls)
  readonly-Within (name ∷ []) ks ls h k = let same : ks ≡ ls = cc in rw same (Within-refl ls)
  readonly-Within (name ∷ arg ∷ args) ks ls h k =
      let key = command_name encode_name name in
      elim (Option-cases (find_spec key readonly)) [
        | inl e ↦
            let read : apply_spec (find_spec key all_keys) (name ∷ arg ∷ args) ≡ extracted ks =
              rw (choose_spec, e) at h in
            let touch : apply_spec (find_spec key all_keys) (name ∷ arg ∷ args) ≡ extracted ls =
              rw (choose_spec, e) at k in
            let same : ks ≡ ls = cc in rw same (Within-refl ls)
        | inr (s, e) ↦
            let (t, f, part) = listed_in_all key s e in
            let read : eval s (name ∷ arg ∷ args) ≡ extracted ks = rw (choose_spec, e) at h in
            let touch : eval t (name ∷ arg ∷ args) ≡ extracted ls = rw (choose_spec, e, f) at k in
            part-Within s t (name ∷ arg ∷ args) ks ls part read touch
      ]

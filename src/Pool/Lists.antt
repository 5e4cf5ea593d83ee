-- ===== src/Pool/Lists.antt =====
-- Lists of connections, and how often one is in a list.
use coredis.Prelude.{
  ℕ, suc, ◌+◌, ◌≤◌, ◌≡◌, refl, ap, Bool, true, false, List, [], ◌∷◌, if◌then◌else◌, ◌==◌, arith,
  length, Bool-cases, inl, inr,
}

unfoldable pub contains : ℕ → List ℕ → Bool
contains c [] = false
contains c (d ∷ ds) = let later = contains c ds in if c == d then true else later

-- `list.remove` and `set.remove`, of a member.
unfoldable pub remove : ℕ → List ℕ → List ℕ
remove c [] = []
remove c (d ∷ ds) = let later = d ∷ remove c ds in if c == d then ds else later

-- `set.add`
unfoldable pub add_member : ℕ → List ℕ → List ℕ
unfolding contains
add_member c cs = if contains c cs then cs else c ∷ cs

unfoldable pub one_if : Bool → ℕ
one_if true = 1
one_if false = 0

unfoldable pub count : ℕ → List ℕ → ℕ
unfolding one_if
count c [] = 0
count c (d ∷ ds) = one_if (c == d) + count c ds

pub count-remove :
    (c d : ℕ) (ds : List ℕ)
    → contains d ds ≡ true
    → count c ds ≡ one_if (c == d) + count c (remove d ds)
unfolding contains remove count
count-remove c d [] h = cc
count-remove c d (e ∷ ds) h = elim (Bool-cases (d == e)) [
  | inl same ↦ let as_d : d ≡ e = ground arith in rw (same, as_d) refl
  | inr other ↦ rw other (omega (arith, count-remove c d ds (rw other at h)))
]

pub length-remove :
    (d : ℕ) (ds : List ℕ) → contains d ds ≡ true → length ds ≡ suc (length (remove d ds))
unfolding contains remove
length-remove d [] h = cc
length-remove d (e ∷ ds) h = elim (Bool-cases (d == e)) [
  | inl same ↦ rw same refl
  | inr other ↦ rw other (ap suc (length-remove d ds (rw other at h)))
]

pub count-contains : (c : ℕ) (cs : List ℕ) → contains c cs ≡ true → 1 ≤ count c cs
unfolding contains count one_if
count-contains c [] h = cc
count-contains c (d ∷ ds) h = elim (Bool-cases (c == d)) [
  | inl same ↦ rw same (omega arith)
  | inr other ↦ rw other (omega (arith, count-contains c ds (rw other at h)))
]

pub one_if_self : (c : ℕ) → one_if (c == c) ≡ 1
unfolding one_if
one_if_self c = ground arith

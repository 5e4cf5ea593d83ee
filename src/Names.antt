-- ===== src/Names.antt =====
-- Dicts whose keys are texts or bytes, as lists of codes.
use Prim.{Discrete, yes, no}
use coredis.Prelude.{ℕ, ◌≡◌, refl, List, [], ◌∷◌, ℕ_discrete}

abbrev pub Names : Type 0 → Type 0
Names V = List (List ℕ × V)

unfoldable both_equal :
    (x y : ℕ) (xs ys : List ℕ)
    → Dec (x ≡ y)
    → Dec (xs ≡ ys)
    → Dec (◌≡◌ {A = List ℕ} (x ∷ xs) (y ∷ ys))
both_equal x y xs ys (yes p) (yes q) = yes cc
both_equal x y xs ys (no p) _ = no (λ e. p cc)
both_equal x y xs ys _ (no q) = no (λ e. q cc)

-- The keys of a dict by their codes.
unfoldable pub names_equal : Discrete (List ℕ)
unfolding both_equal
names_equal [] [] = yes refl
names_equal [] (y ∷ ys) = no (λ e. cc)
names_equal (x ∷ xs) [] = no (λ e. cc)
names_equal (x ∷ xs) (y ∷ ys) = both_equal x y xs ys (ℕ_discrete x y) (names_equal xs ys)

-- ===== src/KeySpec/Slices.antt =====
-- Python's slices and `index` of a tuple, and what is a member of them.
use mathlib.Core.Option
use coredis.Prelude.{
  ℕ, zero, suc, ◌+◌, ◌-◌, ◌≡◌, sym, ◌∙◌, ◌⊎◌, inl, inr, Bool, Option, none, some, List, [], ◌∷◌,
  ◌++◌, if◌then◌else◌, length, take, drop, get_elem?,
}
use coredis.Prelude.Int.{ℤ, pos, negsuc}

-- Where a slice ends: an end below 0 counts from the end of the tuple.
unfoldable pub stop : ℕ → ℤ → ℕ
stop size (pos n) = n
stop size (negsuc n) = size - suc n

module _ {A : Type 0} where
  -- `xs[i:j]`
  unfoldable pub slice : ℕ → ℤ → List A → List A
  unfolding stop
  slice i j xs = take (stop (length xs) j - i) (drop i xs)

  -- Every element after `skip` others, once the next `wait` are passed.
  unfoldable pub pick : ℕ → ℕ → List A → List A
  pick skip wait [] = []
  pick skip zero (x ∷ xs) = x ∷ pick skip skip xs
  pick skip (suc wait) (x ∷ xs) = pick skip wait xs

  unfoldable pub position : (A → Bool) → List A → Option ℕ
  position test [] = none
  position test (x ∷ xs) =
      let later = Option.map suc (position test xs) in if test x then some 0 else later

  -- `xs.index(x, start)`; `none` is the ValueError.
  unfoldable pub index : (A → Bool) → ℕ → List A → Option ℕ
  unfolding position
  index test start xs = Option.map (λ i. start + i) (position test (drop start xs))

  abbrev pub In : A → List A → Type 0
  In a [] = ⊥
  In a (x ∷ xs) = (a ≡ x) ⊎ In a xs

  -- Every element of the one is an element of the other.
  unfoldable pub Within : List A → List A → Type 0
  Within xs ys = (a : A) → In a xs → In a ys

  pub Within-refl : (xs : List A) → Within xs xs
  unfolding Within
  Within-refl xs a h = h

  pub Within-trans : (xs ys zs : List A) → Within xs ys → Within ys zs → Within xs zs
  unfolding Within
  Within-trans xs ys zs f g a h = g a (f a h)

  pub In-append : (a : A) (xs ys : List A) → In a (xs ++ ys) → In a xs ⊎ In a ys
  In-append a [] ys h = inr h
  In-append a (x ∷ xs) ys (inl e) = inl (inl e)
  In-append a (x ∷ xs) ys (inr h) = elim (In-append a xs ys h) [
    | inl l ↦ inl (inr l)
    | inr r ↦ inr r
  ]

  pub Within-append_left : (xs ys : List A) → Within xs (xs ++ ys)
  unfolding Within
  Within-append_left (x ∷ xs) ys a (inl e) = inl e
  Within-append_left (x ∷ xs) ys a (inr h) = inr (Within-append_left xs ys a h)
  Within-append_left [] ys a h = absurd h

  pub Within-append_right : (xs ys : List A) → Within ys (xs ++ ys)
  unfolding Within
  Within-append_right [] ys a h = h
  Within-append_right (x ∷ xs) ys a h = inr (Within-append_right xs ys a h)

  pub append-Within : (xs ys zs : List A) → Within xs zs → Within ys zs → Within (xs ++ ys) zs
  unfolding Within
  append-Within xs ys zs f g a h = elim (In-append a xs ys h) [ inl l ↦ f a l | inr r ↦ g a r ]

  take-Within : (n : ℕ) (xs : List A) → Within (take n xs) xs
  unfolding Within
  take-Within zero xs a h = absurd h
  take-Within (suc n) [] a h = h
  take-Within (suc n) (x ∷ xs) a (inl e) = inl e
  take-Within (suc n) (x ∷ xs) a (inr h) = inr (take-Within n xs a h)

  drop-Within : (n : ℕ) (xs : List A) → Within (drop n xs) xs
  unfolding Within
  drop-Within zero xs a h = h
  drop-Within (suc n) [] a h = h
  drop-Within (suc n) (x ∷ xs) a h = inr (drop-Within n xs a h)

  pub slice-Within : (i : ℕ) (j : ℤ) (x : A) (xs : List A) → Within (slice (suc i) j (x ∷ xs)) xs
  unfolding slice
  slice-Within i j x xs =
      Within-trans _ (drop i xs) xs (take-Within (stop (length (x ∷ xs)) j - suc i) (drop i xs))
        (drop-Within i xs)

  pub pick-Within : (skip wait : ℕ) (xs : List A) → Within (pick skip wait xs) xs
  unfolding pick Within
  pick-Within skip wait [] a h = h
  pick-Within skip zero (x ∷ xs) a (inl e) = inl e
  pick-Within skip zero (x ∷ xs) a (inr h) = inr (pick-Within skip skip xs a h)
  pick-Within skip (suc wait) (x ∷ xs) a h = inr (pick-Within skip wait xs a h)

  pub get-Within : (i : ℕ) (xs : List A) (a : A) → get_elem? xs i ≡ some a → Within (a ∷ []) xs
  unfolding Within
  get-Within i [] a h b g = cc
  get-Within zero (x ∷ xs) a h b (inl e) = let same : x ≡ a = cc in inl (e ∙ sym same)
  get-Within (suc i) (x ∷ xs) a h b (inl e) = inr (get-Within i xs a h b (inl e))
  get-Within zero (x ∷ xs) a h b (inr g) = absurd g
  get-Within (suc i) (x ∷ xs) a h b (inr g) = absurd g

-- ===== src/Dict.antt =====
-- A Python dict, or `collections.OrderedDict`, of any keys with decidable equality: its entries in
-- their order.
use Prim.{Discrete, yes, no}
use coredis.Prelude.{
  suc, ◌≤◌, ◌≡◌, refl, sym, ap, ◌∙◌, ◌⊎◌, inl, inr, Bool, true, false, Option, none, some, List, [],
  ◌∷◌, ◌++◌, arith, if◌then◌else◌, length,
}

unfoldable pub holds {ℓ} : {A : Type ℓ} → Dec A → Bool
holds (yes a) = true
holds (no n) = false

holds-cases {ℓ} : {A : Type ℓ} (d : Dec A) → ((holds d ≡ true) × A) ⊎ (holds d ≡ false)
unfolding holds
holds-cases (yes a) = inl (refl, a)
holds-cases (no n) = inr refl

holds_of {ℓ} : {A : Type ℓ} (d : Dec A) → A → holds d ≡ true
unfolding holds
holds_of (yes a) b = refl
holds_of (no n) b = absurd (n b)

module _ {K : Type 0} (eq : Discrete K) where
  unfoldable pub same : K → K → Bool
  unfolding holds
  same k j = holds (eq k j)

  pub same-cases : (k j : K) → ((same k j ≡ true) × (k ≡ j)) ⊎ (same k j ≡ false)
  unfolding same
  same-cases k j = holds-cases (eq k j)

  pub same_refl : (k : K) → same k k ≡ true
  unfolding same
  same_refl k = holds_of (eq k k) refl

  same-swap : (k j : K) → same k j ≡ false → same j k ≡ false
  same-swap k j h = elim (same-cases j k) [
    | inl (e, f) ↦ let no : true ≡ false = rw (f, same_refl k) at h in cc
    | inr e ↦ e
  ]

settled :
    {V : Type 0} (b : Bool) (v w : V) (o : Option V)
    → (if b then some v else o) ≡ (if b then some v else (if b then some w else o))
settled true v w o = refl
settled false v w o = refl

other_key :
    {K : Type 0} (eq : Discrete K) (k j i : K) → k ≡ i → same eq j i ≡ false → same eq k j ≡ false
other_key eq k j i e f = rw e (same-swap eq j i f)

module _ {K V : Type 0} (eq : Discrete K) where
  unfoldable pub find : K → List (K × V) → Option V
  unfolding same
  find k [] = none
  find k ((j, v) ∷ rest) = let later = find k rest in if same eq k j then some v else later

  unfoldable pub delete : K → List (K × V) → List (K × V)
  unfolding same
  delete k [] = []
  delete k ((j, v) ∷ rest) =
      let later = (j, v) ∷ delete k rest in if same eq k j then rest else later

  -- `d[k] = v`: a key that is there keeps its place.
  unfoldable pub set_item : K → V → List (K × V) → List (K × V)
  unfolding same
  set_item k v [] = (k, v) ∷ []
  set_item k v ((j, w) ∷ rest) =
      let later = (j, w) ∷ set_item k v rest in if same eq k j then (j, v) ∷ rest else later

  -- `move_to_end(k)`, of a key that is there with the value `v`
  unfoldable pub move_to_end : K → V → List (K × V) → List (K × V)
  unfolding delete
  move_to_end k v entries = delete k entries ++ (k, v) ∷ []

  -- No key has two entries.
  abbrev pub Distinct : List (K × V) → Type 0
  Distinct [] = Unit
  Distinct ((k, v) ∷ rest) = (find k rest ≡ none) × Distinct rest

  pub delete-set_item :
      (k : K) (v : V) (es : List (K × V)) → delete k (set_item k v es) ≡ delete k es
  unfolding delete set_item
  delete-set_item k v [] = rw (same_refl eq k) refl
  delete-set_item k v ((j, w) ∷ rest) = elim (same-cases eq k j) [
    | inl (e, f) ↦ rw e (rw e refl)
    | inr e ↦ rw e (rw e (ap (λ (t : List (K × V)). (j, w) ∷ t) (delete-set_item k v rest)))
  ]

  find-cons_none :
      (k j : K) (v : V) (es : List (K × V))
      → find k ((j, v) ∷ es) ≡ none
      → (same eq k j ≡ false) × (find k es ≡ none)
  unfolding find
  find-cons_none k j v es h = elim (same-cases eq k j) [
    | inl (e, f) ↦ let no_key : some v ≡ none = rw e at h in cc
    | inr e ↦ (e, rw e at h)
  ]

  pub find-cons_self : (k : K) (v : V) (es : List (K × V)) → find k ((k, v) ∷ es) ≡ some v
  unfolding find
  find-cons_self k v es = rw (same_refl eq k) refl

  pub find-cons_later :
      (k j : K) (v w : V) (es : List (K × V))
      → find j es ≡ none
      → find k es ≡ some v
      → find k ((j, w) ∷ es) ≡ some v
  unfolding find
  find-cons_later k j v w es no_j h = elim (same-cases eq k j) [
    | inl (e, f) ↦ let never : some v ≡ none = sym h ∙ ap (λ i. find i es) f ∙ no_j in cc
    | inr e ↦ rw e h
  ]

  pub find-delete-none :
      (j k : K) (es : List (K × V)) → find j es ≡ none → find j (delete k es) ≡ none
  unfolding delete find
  find-delete-none j k [] h = h
  find-delete-none j k ((i, v) ∷ rest) h =
      let (e, f) = find-cons_none j i v rest h in
      elim (same-cases eq k i) [
        | inl (g, same_key) ↦ rw g f
        | inr g ↦ rw g (rw e (find-delete-none j k rest f))
      ]

  pub find-delete : (k : K) (es : List (K × V)) → Distinct es → find k (delete k es) ≡ none
  unfolding delete find
  find-delete k [] h = refl
  find-delete k ((i, v) ∷ rest) h = elim (same-cases eq k i) [
    | inl (g, same_key) ↦ rw (g, same_key) h.0
    | inr g ↦ rw g (rw g (find-delete k rest h.1))
  ]

  pub Distinct-delete : (k : K) (es : List (K × V)) → Distinct es → Distinct (delete k es)
  unfolding delete
  Distinct-delete k [] h = tt
  Distinct-delete k ((i, v) ∷ rest) h = elim (same-cases eq k i) [
    | inl (g, same_key) ↦ rw g h.1
    | inr g ↦ rw g (find-delete-none i k rest h.0, Distinct-delete k rest h.1)
  ]

  pub find-append_last :
      (k : K) (v : V) (es : List (K × V)) → find k es ≡ none → find k (es ++ (k, v) ∷ []) ≡ some v
  unfolding find
  find-append_last k v [] h = rw (same_refl eq k) refl
  find-append_last k v ((j, w) ∷ rest) h =
      let (e, f) = find-cons_none k j w rest h in rw e (find-append_last k v rest f)

  find-append_none :
      (j k : K) (v : V) (es : List (K × V))
      → same eq j k ≡ false
      → find j es ≡ none
      → find j (es ++ (k, v) ∷ []) ≡ none
  unfolding find
  find-append_none j k v [] d h = rw d refl
  find-append_none j k v ((i, w) ∷ rest) d h =
      let (e, f) = find-cons_none j i w rest h in rw e (find-append_none j k v rest d f)

  pub Distinct-append_last :
      (k : K) (v : V) (es : List (K × V))
      → find k es ≡ none
      → Distinct es
      → Distinct (es ++ (k, v) ∷ [])
  Distinct-append_last k v [] h d = (unfold find in refl, tt)
  Distinct-append_last k v ((j, w) ∷ rest) h d =
      let (e, f) = find-cons_none k j w rest h in
      (find-append_none j k v rest (same-swap eq k j e) d.0, Distinct-append_last k v rest f d.1)

  pub length-delete-le : (k : K) (es : List (K × V)) → length (delete k es) ≤ length es
  unfolding delete
  length-delete-le k [] = omega arith
  length-delete-le k ((j, v) ∷ rest) = elim (same-cases eq k j) [
    | inl (e, f) ↦ rw e (omega arith)
    | inr e ↦ rw e (omega (arith, length-delete-le k rest))
  ]

  pub delete-append_last :
      (k : K) (v : V) (es : List (K × V)) → find k es ≡ none → delete k (es ++ (k, v) ∷ []) ≡ es
  unfolding delete
  delete-append_last k v [] h = rw (same_refl eq k) refl
  delete-append_last k v ((j, w) ∷ rest) h =
      let (e, f) = find-cons_none k j w rest h in
      rw e (ap (λ (t : List (K × V)). (j, w) ∷ t) (delete-append_last k v rest f))

  pub length-delete_found :
      (k : K) (v : V) (es : List (K × V))
      → find k es ≡ some v
      → suc (length (delete k es)) ≡ length es
  unfolding delete find
  length-delete_found k v [] h = cc
  length-delete_found k v ((j, w) ∷ rest) h = elim (same-cases eq k j) [
    | inl (e, f) ↦ rw e refl
    | inr e ↦ rw e (ap suc (length-delete_found k v rest (rw e at h)))
  ]

  -- What a key that is written has, and what the others have.
  pub find-set_item :
      (k j : K) (v : V) (es : List (K × V))
      → find k (set_item j v es) ≡ (if same eq k j then some v else find k es)
  unfolding find set_item
  find-set_item k j v [] = refl
  find-set_item k j v ((i, w) ∷ rest) = elim (same-cases eq j i) [
    | inl (e, f) ↦ rw (e, ← f) (settled (same eq k j) v w (find k rest))
    | inr e ↦ elim (same-cases eq k i) [
      | inl (g, same_key) ↦ rw (e, g, other_key eq k j i same_key e) (ap (λ (t : Option V). t) refl)
      | inr g ↦ rw (e, g, find-set_item k j v rest) refl
    ]
  ]

  pub Distinct-set_item :
      (k : K) (v : V) (es : List (K × V)) → Distinct es → Distinct (set_item k v es)
  unfolding set_item
  Distinct-set_item k v [] d = (unfold find in refl, tt)
  Distinct-set_item k v ((j, w) ∷ rest) d = elim (same-cases eq k j) [
    | inl (e, f) ↦ rw e d
    | inr e ↦
        let absent : find j (set_item k v rest) ≡ none =
          find-set_item j k v rest ∙ rw (same-swap eq k j e) d.0 in
        rw e (absent, Distinct-set_item k v rest d.1)
  ]

  pub find-delete_other :
      (j k : K) (es : List (K × V)) → same eq j k ≡ false → find j (delete k es) ≡ find j es
  unfolding delete find
  find-delete_other j k [] d = refl
  find-delete_other j k ((i, v) ∷ rest) d = elim (same-cases eq k i) [
    | inl (e, f) ↦ let apart : same eq j i ≡ false = rw (← f) d in rw (e, apart) refl
    | inr e ↦ elim (same-cases eq j i) [
      | inl (g, h) ↦ rw (e, g) refl
      | inr g ↦ rw (e, g) (find-delete_other j k rest d)
    ]
  ]

-- ===== src/Streams/Deliver.antt =====
-- What the loops of `Consumer.get_entry` of coredis/stream.py do to the entries of each stream.
use coredis.Prelude.{
  ℕ, ◌≡◌, refl, sym, ◌∙◌, ap, Option, none, some, List, [], ◌∷◌, ◌++◌, if◌then◌else◌, Option-cases,
  inl, inr,
}
use mathlib.Core.Option
use mathlib.Core.List.{append-nil}
use mathlib.Core.Path.{subst}
use coredis.Dict.{find, set_item, same, same-cases, find-set_item, Distinct, Distinct-set_item}
use coredis.Names.{Names, names_equal}
use coredis.Streams.{Entry, or_empty, extend, extend_rest, take_buffered, distribute, update}

-- The entries that a dict has for a stream, and the entry handed over if it is of the stream.
unfoldable pub entries_of : List ℕ → Names (List Entry) → List Entry
entries_of name d = or_empty (find names_equal name d)

unfoldable pub taken : List ℕ → Option (List ℕ × Entry) → List Entry
taken name none = []
taken name (some (stream, e)) = if same names_equal name stream then e ∷ [] else []

entries_of-cons :
    (name s : List ℕ) (es : List Entry) (rest : Names (List Entry))
    → entries_of name ((s, es) ∷ rest)
      ≡ (if same names_equal name s then es else entries_of name rest)
unfolding entries_of find or_empty
entries_of-cons name s es rest = elim (same-cases names_equal name s) [
  | inl (e, f) ↦ rw e refl
  | inr e ↦ rw e refl
]

entries_of-extend :
    (name s : List ℕ) (es : List Entry) (d : Names (List Entry))
    → entries_of name (extend s es d)
      ≡ (if same names_equal name s then entries_of name d ++ es else entries_of name d)
unfolding entries_of extend
entries_of-extend name s es d =
    let held = find-set_item names_equal name s (or_empty (find names_equal s d) ++ es) d in
    elim (same-cases names_equal name s) [
      | inl (e, f) ↦ rw (held, e, or_empty, f) refl
      | inr e ↦ rw (held, e) refl
    ]

entries_of_absent :
    (name : List ℕ) (d : Names (List Entry))
    → find names_equal name d ≡ none
    → entries_of name d ≡ []
unfolding entries_of or_empty
entries_of_absent name d h = rw h refl

-- A second entry of a dict with distinct keys has another key.
absent_below :
    (name s : List ℕ) (es : List Entry) (rest : Names (List Entry))
    → Distinct names_equal ((s, es) ∷ rest)
    → name ≡ s
    → entries_of name rest ≡ []
absent_below name s es rest d e =
    entries_of_absent name rest (ap (λ k. find names_equal k rest) e ∙ d.0)

pub some_again :
    {A B : Type 0} (f : A → B) (o : Option A) (b : B)
    → Option.map f o ≡ some b
    → (a : A) × (o ≡ some a) × (f a ≡ b)
some_again f none b h = cc
some_again f (some a) b h = (a, refl, cc)

front_nil : (xs ys : List Entry) → xs ++ ys ≡ [] → xs ≡ []
front_nil [] ys h = refl
front_nil (x ∷ xs) ys h = cc

-- The entry taken from the buffer, and what is left.
Takes : List ℕ → Names (List Entry) → (List ℕ × Entry) × Names (List Entry) → Type 0
Takes name d r = taken name (some r.0) ++ entries_of name r.1 ≡ entries_of name d

pub take_buffered_lem :
    (name : List ℕ) (d : Names (List Entry)) (r : (List ℕ × Entry) × Names (List Entry))
    → take_buffered d ≡ some r
    → Distinct names_equal d
    → taken name (some r.0) ++ entries_of name r.1 ≡ entries_of name d
unfolding take_buffered taken Takes
take_buffered_lem name [] r h d = cc
take_buffered_lem name ((s, []) ∷ rest) r h d =
    let (q, e, f) = some_again _ (take_buffered rest) r h in
    let ih = take_buffered_lem name rest q e d.1 in
    subst (Takes name ((s, []) ∷ rest)) f (elim (same-cases names_equal name s) [
      | inl (g, k) ↦
          let gone =
            front_nil (taken name (some q.0)) (entries_of name q.1)
              (ih ∙ absent_below name s [] rest d k) in
          rw (entries_of-cons name s [] q.1, entries_of-cons name s [] rest, g)
            (append-nil _ ∙ gone)
      | inr g ↦ rw (entries_of-cons name s [] q.1, entries_of-cons name s [] rest, g) ih
    ])
take_buffered_lem name ((s, e ∷ es) ∷ rest) r h d =
    let same_pair : ((s, e), (s, es) ∷ rest) ≡ r = cc in
    subst (Takes name ((s, e ∷ es) ∷ rest)) same_pair (elim (same-cases names_equal name s) [
      | inl (g, k) ↦
          rw (entries_of-cons name s es rest, entries_of-cons name s (e ∷ es) rest, g) refl
      | inr g ↦ rw (entries_of-cons name s es rest, entries_of-cons name s (e ∷ es) rest, g) refl
    ])

distribute-some :
    (name : List ℕ) (consumed : Names (List Entry)) (g : List ℕ × Entry) (d : Names (List Entry))
    → Distinct names_equal consumed
    → ((distribute consumed (some g) d).0 ≡ some g)
      × (entries_of name (distribute consumed (some g) d).1
          ≡ entries_of name d ++ entries_of name consumed)
unfolding distribute
distribute-some name [] g d h = (
  refl,
  sym (append-nil (entries_of name d))
      ∙ ap (λ xs. entries_of name d ++ xs) (sym (entries_of_absent name [] (unfold find in refl))),
)
distribute-some name ((s, []) ∷ rest) g d h =
    let (same_got, ih) = distribute-some name rest g d h.1 in
    (
      same_got,
      ih
          ∙ ap (λ xs. entries_of name d ++ xs)
              (elim (same-cases names_equal name s) [
                | inl (e, k) ↦
                    absent_below name s [] rest h k
                    ∙ sym (entries_of-cons name s [] rest ∙ rw e refl)
                | inr e ↦ sym (entries_of-cons name s [] rest ∙ rw e refl)
              ]),
    )
distribute-some name ((s, e ∷ es) ∷ rest) g d h =
    let (same_got, ih) = distribute-some name rest g (extend s (e ∷ es) d) h.1 in
    (
      same_got,
      ih ∙ elim (same-cases names_equal name s) [
        | inl (f, k) ↦
            rw
              (
                entries_of-extend name s (e ∷ es) d,
                entries_of-cons name s (e ∷ es) rest,
                f,
                absent_below name s (e ∷ es) rest h k,
              )
              (append-nil _)
        | inr f ↦
            rw (entries_of-extend name s (e ∷ es) d, entries_of-cons name s (e ∷ es) rest, f) refl
      ],
    )

extend_rest_lem :
    (name s : List ℕ) (es : List Entry) (d : Names (List Entry))
    → entries_of name (extend_rest s es d)
      ≡ (if same names_equal name s then entries_of name d ++ es else entries_of name d)
unfolding extend_rest
extend_rest_lem name s [] d = elim (same-cases names_equal name s) [
  | inl (e, k) ↦ rw e (sym (append-nil _))
  | inr e ↦ rw e refl
]
extend_rest_lem name s (e ∷ es) d = entries_of-extend name s (e ∷ es) d

pub distribute-none :
    (name : List ℕ) (consumed d : Names (List Entry))
    → Distinct names_equal consumed
    → entries_of name d ≡ []
    → taken name (distribute consumed none d).0 ++ entries_of name (distribute consumed none d).1
      ≡ entries_of name consumed
unfolding distribute taken
distribute-none name [] d h empty = empty ∙ sym (entries_of_absent name [] (unfold find in refl))
distribute-none name ((s, []) ∷ rest) d h empty =
    distribute-none name rest d h.1 empty ∙ elim (same-cases names_equal name s) [
      | inl (e, k) ↦
          absent_below name s [] rest h k ∙ sym (entries_of-cons name s [] rest ∙ rw e refl)
      | inr e ↦ sym (entries_of-cons name s [] rest ∙ rw e refl)
    ]
distribute-none name ((s, e ∷ es) ∷ rest) d h empty =
    let (same_got, stored) = distribute-some name rest (s, e) (extend_rest s es d) h.1 in
    rw (same_got, stored)
      (elim (same-cases names_equal name s) [
        | inl (f, k) ↦
            rw
              (
                extend_rest_lem name s es d,
                entries_of-cons name s (e ∷ es) rest,
                f,
                empty,
                absent_below name s (e ∷ es) rest h k,
              )
              (append-nil (e ∷ es))
        | inr f ↦
            rw (extend_rest_lem name s es d, entries_of-cons name s (e ∷ es) rest, f, empty) refl
      ])

pub take_buffered-none :
    (name : List ℕ) (d : Names (List Entry)) → take_buffered d ≡ none → entries_of name d ≡ []
unfolding take_buffered
take_buffered-none name [] h = entries_of_absent name [] (unfold find in refl)
take_buffered-none name ((s, []) ∷ rest) h = elim (Option-cases (take_buffered rest)) [
  | inr (r, e) ↦ let never : some _ ≡ none = rw (e, Option.map) at h in cc
  | inl e ↦ entries_of-cons name s [] rest ∙ elim (same-cases names_equal name s) [
    | inl (f, k) ↦ rw f refl
    | inr f ↦ rw f (take_buffered-none name rest e)
  ]
]
take_buffered-none name ((s, e ∷ es) ∷ rest) h = cc

-- A dict of which only the lists of entries differ has the same keys.
same_keys :
    (k : List ℕ) (d : Names (List Entry)) (r : (List ℕ × Entry) × Names (List Entry))
    → take_buffered d ≡ some r
    → find names_equal k d ≡ none
    → find names_equal k r.1 ≡ none
unfolding take_buffered find
same_keys k [] r h e = cc
same_keys k ((s, []) ∷ rest) r h e =
    let (q, f, g) = some_again _ (take_buffered rest) r h in
    subst (λ (x : (List ℕ × Entry) × Names (List Entry)). find names_equal k x.1 ≡ none) g
      (elim (same-cases names_equal k s) [
        | inl (i, j) ↦ let never : some [] ≡ none = rw i at e in cc
        | inr i ↦ rw i (same_keys k rest q f (rw i at e))
      ])
same_keys k ((s, x ∷ xs) ∷ rest) r h e =
    let same_pair : ((s, x), (s, xs) ∷ rest) ≡ r = cc in
    subst (λ (x : (List ℕ × Entry) × Names (List Entry)). find names_equal k x.1 ≡ none) same_pair
      (elim (same-cases names_equal k s) [
        | inl (i, j) ↦ let never : some (x ∷ xs) ≡ none = rw i at e in cc
        | inr i ↦ rw i (rw i at e)
      ])

pub take_buffered-Distinct :
    (d : Names (List Entry)) (r : (List ℕ × Entry) × Names (List Entry))
    → take_buffered d ≡ some r
    → Distinct names_equal d
    → Distinct names_equal r.1
unfolding take_buffered
take_buffered-Distinct [] r h d = cc
take_buffered-Distinct ((s, []) ∷ rest) r h d =
    let (q, f, g) = some_again _ (take_buffered rest) r h in
    subst (λ (x : (List ℕ × Entry) × Names (List Entry)). Distinct names_equal x.1) g
      (same_keys s rest q f d.0, take_buffered-Distinct rest q f d.1)
take_buffered-Distinct ((s, x ∷ xs) ∷ rest) r h d =
    let same_pair : ((s, x), (s, xs) ∷ rest) ≡ r = cc in
    subst (λ (x : (List ℕ × Entry) × Names (List Entry)). Distinct names_equal x.1) same_pair
      (d.0, d.1)

extend-Distinct :
    (s : List ℕ) (es : List Entry) (d : Names (List Entry))
    → Distinct names_equal d
    → Distinct names_equal (extend s es d)
unfolding extend
extend-Distinct s es d h = Distinct-set_item names_equal s _ d h

pub distribute-Distinct :
    (consumed : Names (List Entry)) (g : Option (List ℕ × Entry)) (d : Names (List Entry))
    → Distinct names_equal d
    → Distinct names_equal (distribute consumed g d).1
unfolding distribute extend_rest
distribute-Distinct [] g d h = h
distribute-Distinct ((s, []) ∷ rest) g d h = distribute-Distinct rest g d h
distribute-Distinct ((s, e ∷ []) ∷ rest) none d h = distribute-Distinct rest (some (s, e)) d h
distribute-Distinct ((s, e ∷ x ∷ xs) ∷ rest) none d h =
    distribute-Distinct rest (some (s, e)) (extend s (x ∷ xs) d) (extend-Distinct s (x ∷ xs) d h)
distribute-Distinct ((s, e ∷ es) ∷ rest) (some g) d h =
    distribute-Distinct rest (some g) (extend s (e ∷ es) d) (extend-Distinct s (e ∷ es) d h)

pub update-Distinct :
    (more d : Names (List Entry)) → Distinct names_equal d → Distinct names_equal (update more d)
unfolding update
update-Distinct [] d h = h
update-Distinct ((s, es) ∷ more) d h =
    update-Distinct more (set_item names_equal s es d) (Distinct-set_item names_equal s es d h)

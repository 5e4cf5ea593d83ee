-- ===== src/HashSlot/Tag.antt =====
-- Which part of a key is hashed, and the range of the slot.
use native.Mathlib.Numerals.{add-one}
use coredis.Prelude.{
  Bool, true, false, if◌then◌else◌, Option-cases, inl, inr, not, ℕ, zero, suc, ◌+◌, ◌-◌, ◌%◌, ◌<◌,
  ◌≡◌, refl, ◌≢◌, none, some, List, [], ◌∷◌, ◌++◌, arith, ◌==◌, length, take, drop,
  take-length-append, drop_past,
}
use coredis.HashSlot.{find_byte, find_byte_from, slice, hash_tag, hash_slot, AllBytes}
use coredis.HashSlot.Reference.{crc_reference}
use coredis.HashSlot.Crc.{crc16-eq-reference}

-- No element of the list is `b`.
abbrev pub Avoids : ℕ → List ℕ → Type 0
Avoids b [] = Unit {0}
Avoids b (c ∷ rest) = (c ≢ b) × Avoids b rest

find_byte-first :
    (b : ℕ) (pre post : List ℕ) → Avoids b pre → find_byte b (pre ++ b ∷ post) ≡ some (length pre)
unfolding find_byte
find_byte-first b [] post h = ground arith
find_byte-first b (c ∷ pre) post h = ground (arith, find_byte-first b pre post h.1)

find_byte-absent : (b : ℕ) (key : List ℕ) → Avoids b key → find_byte b key ≡ none
unfolding find_byte
find_byte-absent b [] h = refl
find_byte-absent b (c ∷ key) h = ground (arith, find_byte-absent b key h.1)

closing :
    (pre tag post : List ℕ)
    → Avoids b'}' tag
    → find_byte_from b'}' (pre ++ b'{' ∷ (tag ++ b'}' ∷ post)) (length pre + 1)
      ≡ some (length pre + 1 + length tag)
unfolding find_byte_from
closing pre tag post h =
    rw (
      add-one (length pre),
      drop_past pre b'{' (tag ++ b'}' ∷ post),
      find_byte-first b'}' tag post h,
    )

unclosed :
    (pre post : List ℕ)
    → Avoids b'}' post
    → find_byte_from b'}' (pre ++ b'{' ∷ post) (length pre + 1) ≡ none
unfolding find_byte_from
unclosed pre post h =
    rw (add-one (length pre), drop_past pre b'{' post, find_byte-absent b'}' post h)

slice-tag :
    (pre tag post : List ℕ)
    → slice (pre ++ b'{' ∷ (tag ++ b'}' ∷ post)) (length pre + 1) (length pre + 1 + length tag)
      ≡ tag
unfolding slice
slice-tag pre tag post =
    let width : length pre + 1 + length tag - (length pre + 1) ≡ length tag = omega arith in
    rw (width, add-one (length pre), drop_past pre b'{' (tag ++ b'}' ∷ post))
      (take-length-append tag _)

-- A key with a tag that is not empty is hashed by its first tag alone.
pub hash_tag-tagged :
    (pre tag post : List ℕ)
    → Avoids b'{' pre
    → Avoids b'}' tag
    → tag ≢ []
    → hash_tag (pre ++ b'{' ∷ (tag ++ b'}' ∷ post)) ≡ tag
unfolding hash_tag
hash_tag-tagged pre [] post no_open no_close full = absurd (full refl)
hash_tag-tagged pre (t ∷ tag) post no_open no_close full =
    let key = pre ++ b'{' ∷ (t ∷ tag ++ b'}' ∷ post) in
    let opened = find_byte-first b'{' pre (t ∷ tag ++ b'}' ∷ post) no_open in
    let closed = closing pre (t ∷ tag) post no_close in
    let cut = slice-tag pre (t ∷ tag) post in rw (opened, hash_tag, closed) (ground (arith, cut))

AllBytes-take : (n : ℕ) (key : List ℕ) → AllBytes key → AllBytes (take n key)
AllBytes-take zero key h = tt
AllBytes-take (suc n) [] h = tt
AllBytes-take (suc n) (c ∷ key) h = (h.0, AllBytes-take n key h.1)

AllBytes-drop : (n : ℕ) (key : List ℕ) → AllBytes key → AllBytes (drop n key)
AllBytes-drop zero key h = h
AllBytes-drop (suc n) [] h = tt
AllBytes-drop (suc n) (c ∷ key) h = AllBytes-drop n key h.1

AllBytes-slice : (key : List ℕ) (i j : ℕ) → AllBytes key → AllBytes (slice key i j)
unfolding slice
AllBytes-slice key i j h = AllBytes-take (j - i) (drop i key) (AllBytes-drop i key h)

AllBytes-if :
    (b : Bool) (xs ys : List ℕ) → AllBytes xs → AllBytes ys → AllBytes (if b then xs else ys)
AllBytes-if true xs ys p q = p
AllBytes-if false xs ys p q = q

hash_tag-AllBytes : (key : List ℕ) → AllBytes key → AllBytes (hash_tag key)
unfolding hash_tag
hash_tag-AllBytes key h = elim (Option-cases (find_byte b'{' key)) [
  | inl e ↦ rw (e, hash_tag) h
  | inr (i, e) ↦ elim (Option-cases (find_byte_from b'}' key (i + 1))) [
    | inl f ↦ rw (e, f, hash_tag) h
    | inr (j, f) ↦
        rw (e, f, hash_tag)
          (AllBytes-if (not (j == i + 1)) (slice key (i + 1) j) key (AllBytes-slice key (i + 1) j h)
            h)
  ]
]

-- Every key has a slot, and it is one of the 16384.
pub hash_slot-lt :
    (key : List ℕ) → AllBytes key → (slot : ℕ) × (hash_slot key ≡ some slot) × (slot < 16384)
unfolding hash_slot
hash_slot-lt key h =
    let crc = crc_reference 0 (hash_tag key) in
    (crc % 16384, rw (crc16-eq-reference (hash_tag key) (hash_tag-AllBytes key h)), omega arith)

-- A key with no `{`, and a key with nothing between its first `{` and the `}` right after it, are
-- hashed whole.
pub hash_tag-untagged :
    (pre post : List ℕ)
    → Avoids b'{' pre
    → (hash_tag pre ≡ pre) × (hash_tag (pre ++ b'{' ∷ b'}' ∷ post) ≡ pre ++ b'{' ∷ b'}' ∷ post)
unfolding hash_tag
hash_tag-untagged pre post h = (
  rw (find_byte-absent b'{' pre h, hash_tag),
  rw (find_byte-first b'{' pre (b'}' ∷ post) h, hash_tag, closing pre [] post tt) (ground arith),
)

-- A key with no `}` behind its first `{` is hashed whole.
pub hash_tag-unclosed :
    (pre post : List ℕ)
    → Avoids b'{' pre
    → Avoids b'}' post
    → hash_tag (pre ++ b'{' ∷ post) ≡ pre ++ b'{' ∷ post
unfolding hash_tag
hash_tag-unclosed pre post h no_close =
    rw (find_byte-first b'{' pre post h, hash_tag, unclosed pre post no_close)

abbrev pub tag_or : List ℕ → List ℕ → List ℕ
tag_or [] key = key
tag_or (t ∷ tag) key = t ∷ tag

-- A key with no `{`, and a key with no `}` behind its first `{`, is hashed whole; a key with both is hashed by what
-- stands between its first `{` and the first `}` behind it, or whole where nothing does.
pub hash_tag_lem :
    (pre tag post : List ℕ)
    → Avoids b'{' pre
    → Avoids b'}' tag
    → (hash_tag pre ≡ pre)
      × (hash_tag (pre ++ b'{' ∷ tag) ≡ pre ++ b'{' ∷ tag)
      × (hash_tag (pre ++ b'{' ∷ (tag ++ b'}' ∷ post))
          ≡ tag_or tag (pre ++ b'{' ∷ (tag ++ b'}' ∷ post)))
hash_tag_lem pre [] post no_open no_close =
    let (whole, empty) = hash_tag-untagged pre post no_open in
    (whole, hash_tag-unclosed pre [] no_open no_close, empty)
hash_tag_lem pre (t ∷ tag) post no_open no_close = (
  (hash_tag-untagged pre post no_open).0,
  hash_tag-unclosed pre (t ∷ tag) no_open no_close,
  hash_tag-tagged pre (t ∷ tag) post no_open no_close (λ e. cc),
)

-- Keys with the same tag, whatever stands around it, have the same slot: the slot of the tag.
pub hash_slot-tagged :
    (pre tag post : List ℕ)
    → Avoids b'{' pre
    → Avoids b'}' tag
    → Avoids b'{' tag
    → tag ≢ []
    → hash_slot (pre ++ b'{' ∷ (tag ++ b'}' ∷ post)) ≡ hash_slot tag
unfolding hash_slot
hash_slot-tagged pre tag post p q r full =
    rw (hash_tag-tagged pre tag post p q full, (hash_tag-untagged tag [] r).0)

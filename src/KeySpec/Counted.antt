-- ===== src/KeySpec/Counted.antt =====
-- Which arguments are keys where a command counts them, and where they stand behind `STREAMS`.
use mathlib.Core.List.{append_assoc}
use coredis.Prelude.{
  ℕ, suc, ◌+◌, ◌-◌, ◌/◌, ◌≡◌, refl, ap, sym, ◌∙◌, true, false, some, List, [], ◌∷◌, ◌++◌, arith,
  Bool-cases, inl, inr, length, length-append, drop_past, take-length-append, drop-length-append,
}
use coredis.Prelude.Int.{pos, ◌+ℤ◌}
use coredis.Resp.Packer.{Argument, raw}
use coredis.Resp.Errors.{codes}
use coredis.KeySpec.Slices.{slice, stop, position, index}
use coredis.KeySpec.Spec.{
  counted, range, streams, extracted, eval, item, int_of, resolve, is_keyword, has_keyword,
  when_keyword, keyword_index, streams_keys, streams_keyword, first_half, or_value_error,
}
use coredis.KeySpec.All.{all_keys, all_keys_second, all_keys_third}
use coredis.KeySpec.Extract.{find_spec, command_name, apply_spec, extract_keys, extract_keys_all}

-- No argument is the keyword.
abbrev pub Lacks : List ℕ → List Argument → Type 0
Lacks keyword [] = Unit
Lacks keyword (a ∷ args) = (is_keyword keyword a ≡ false) × Lacks keyword args

slice_front :
    (xs keys rest : List Argument)
    → slice (length xs) (pos (length xs + length keys)) (xs ++ (keys ++ rest)) ≡ keys
unfolding slice stop
slice_front xs keys rest =
    let width : length xs + length keys - length xs ≡ length keys = omega arith in
    rw (width, drop-length-append xs (keys ++ rest)) (take-length-append keys rest)

module _ (encode_name : Argument → List ℕ) where
  -- A command whose entry is `args[3 : 3 + int(args[2])]`, such as EVAL: its keys are as many as its
  -- second argument says, from the third on.
  pub extract_keys_counted :
      (name script numkeys : Argument) (keys rest : List Argument)
      → find_spec (command_name encode_name name) all_keys ≡ some (range 3 (counted 2))
      → int_of numkeys ≡ extracted (pos (length keys))
      → extract_keys encode_name (name ∷ script ∷ numkeys ∷ (keys ++ rest)) false ≡ extracted keys
  unfolding apply_spec eval resolve item
  extract_keys_counted name script numkeys keys rest entry count =
      let three : pos 3 +ℤ pos (length keys) ≡ pos (3 + length keys) =
        unfold ◌+ℤ◌ in ground arith in
      extract_keys_all encode_name name (script ∷ numkeys ∷ (keys ++ rest)) (omega arith)
      ∙ rw (entry, count, three)
          (ap extracted (slice_front (name ∷ script ∷ numkeys ∷ []) keys rest))

has_keyword-append :
    (keyword : List ℕ) (word : Argument) (xs rest : List Argument)
    → is_keyword keyword word ≡ true
    → has_keyword keyword (xs ++ word ∷ rest) ≡ true
unfolding has_keyword
has_keyword-append keyword word [] rest h = rw h refl
has_keyword-append keyword word (x ∷ xs) rest h =
    let later = has_keyword-append keyword word xs rest h in
    elim (Bool-cases (is_keyword keyword x)) [ inl e ↦ rw e refl | inr e ↦ rw e later ]

position-first :
    (keyword : List ℕ) (word : Argument) (xs rest : List Argument)
    → is_keyword keyword word ≡ true
    → Lacks keyword xs
    → position (is_keyword keyword) (xs ++ word ∷ rest) ≡ some (length xs)
unfolding position
position-first keyword word [] rest h l = rw h refl
position-first keyword word (x ∷ xs) rest h l =
    rw (l.0, position-first keyword word xs rest h l.1) refl

index-first :
    (keyword : List ℕ) (word : Argument) (xs ys rest : List Argument)
    → is_keyword keyword word ≡ true
    → Lacks keyword ys
    → index (is_keyword keyword) (length xs) (xs ++ (ys ++ word ∷ rest))
      ≡ some (length xs + length ys)
unfolding index
index-first keyword word xs ys rest h l =
    rw (drop-length-append xs (ys ++ word ∷ rest), position-first keyword word ys rest h l) refl

-- Behind the keyword the first half are the keys.
first_half_keys :
    (xs : List Argument) (word : Argument) (keys ids : List Argument)
    → length ids ≡ length keys
    → first_half (length xs) (xs ++ word ∷ (keys ++ ids)) ≡ keys
unfolding first_half slice stop
first_half_keys xs word keys ids same =
    let total : length (xs ++ word ∷ (keys ++ ids)) ≡ length xs + suc (length keys + length keys) =
      omega (arith, length-append xs (word ∷ (keys ++ ids)), length-append keys ids) in
    let width : length xs
          + suc (length keys + length keys)
          - (length xs + suc (length keys + length keys) - (length xs + 1)) / 2
          - suc (length xs)
        ≡ length keys =
      omega arith in
    rw (total, width, drop_past xs word (keys ++ ids)) (take-length-append keys ids)

module _ (encode_name : Argument → List ℕ) where
  -- `head` is what stands before the place where the entry of the command says that the keyword is looked for.
  keys_behind_keyword :
      (name : Argument) (head options : List Argument) (word : Argument) (keys ids : List Argument)
      → find_spec (command_name encode_name name) all_keys ≡ some (streams (length (name ∷ head)))
      → is_keyword streams_keyword word ≡ true
      → Lacks streams_keyword options
      → length ids ≡ length keys
      → extract_keys encode_name (name ∷ (head ++ (options ++ word ∷ (keys ++ ids)))) false
        ≡ extracted keys
  unfolding apply_spec eval when_keyword streams_keys keyword_index or_value_error
  keys_behind_keyword name head options word keys ids entry is_word lacks same =
      let front = name ∷ head in
      let behind_word = keys ++ ids in
      let grouped = (front ++ options) ++ word ∷ behind_word in
      let regroup : front ++ (options ++ word ∷ behind_word) ≡ grouped =
        sym (append_assoc front options (word ∷ behind_word)) in
      let found : has_keyword streams_keyword (front ++ (options ++ word ∷ behind_word)) ≡ true =
        ap (has_keyword streams_keyword) regroup
        ∙ has_keyword-append streams_keyword word (front ++ options) behind_word is_word in
      let at_word = index-first streams_keyword word front options behind_word is_word lacks in
      let place : length front + length options ≡ length (front ++ options) =
        sym (length-append front options) in
      let halves : first_half (length front + length options)
            (front ++ (options ++ word ∷ behind_word))
          ≡ keys =
        ap (first_half (length front + length options)) regroup
        ∙ ap (λ i. first_half i grouped) place
        ∙ first_half_keys (front ++ options) word keys ids same in
      extract_keys_all encode_name name (head ++ (options ++ word ∷ behind_word)) (
        omega (
          arith,
          length-append head (options ++ word ∷ behind_word),
          length-append options (word ∷ behind_word),
        ))
      ∙ rw (entry, found, at_word, halves) refl

  xread_entry :
      find_spec (command_name encode_name (raw (codes "XREAD"))) all_keys ≡ some (streams 1)
  unfolding find_spec all_keys all_keys_second all_keys_third command_name
  xread_entry = refl

  xreadgroup_entry :
      find_spec (command_name encode_name (raw (codes "XREADGROUP"))) all_keys ≡ some (streams 4)
  unfolding find_spec all_keys all_keys_second all_keys_third command_name
  xreadgroup_entry = refl

  -- The keys of XREAD, and of XREADGROUP behind the three arguments `GROUP`, a group and a consumer, are what stands between
  -- the keyword `STREAMS` and as many identifiers as keys, where none of the options before it is the keyword.
  pub extract_keys_streams :
      (group_word group consumer : Argument) (options : List Argument) (word : Argument)
      (keys ids : List Argument)
      → is_keyword streams_keyword word ≡ true
      → Lacks streams_keyword options
      → length ids ≡ length keys
      → (extract_keys encode_name (raw (codes "XREAD") ∷ (options ++ word ∷ (keys ++ ids))) false
          ≡ extracted keys)
        × (extract_keys encode_name
              (raw (codes "XREADGROUP")
                ∷ group_word
                ∷ group
                ∷ consumer
                ∷ (options ++ word ∷ (keys ++ ids)))
              false
            ≡ extracted keys)
  extract_keys_streams group_word group consumer options word keys ids is_word lacks same = (
    keys_behind_keyword (raw (codes "XREAD")) [] options word keys ids xread_entry is_word lacks
        same,
    keys_behind_keyword (raw (codes "XREADGROUP")) (group_word ∷ group ∷ consumer ∷ []) options word
        keys ids xreadgroup_entry is_word lacks same,
  )

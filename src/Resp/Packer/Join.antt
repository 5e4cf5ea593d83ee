-- ===== src/Resp/Packer/Join.antt =====
-- How the packer cuts its output into chunks does not change the bytes that it sends.
use mathlib.Core.Option
use mathlib.Core.List.{append_assoc}
use coredis.Prelude.{
  ℕ, suc, ◌+◌, ◌≡◌, refl, ap, ◌∙◌, Bool, true, false, Option, none, some, List, [], ◌∷◌, ◌++◌,
  if◌then◌else◌, length, join, join-append, ltb, Bool-cases, Option-cases, inl, inr,
}
use coredis.Prelude.Partial.{◌>>=◌}
use coredis.Resp.Packer.{
  Argument, Codec, encode, cleaned_args, header, is_large, next_buff, add_chunks, pack_args,
  pack_command, pack_one, pack_more, pack_commands,
}
use coredis.Resp.Frame.{Frame, Frames, array, bulk, done, frame, count, blob, line, encode_all}
use coredis.Resp.Frame

-- The bulk strings of an array.
unfoldable pub bulks : List (List ℕ) → Frames
bulks [] = done
bulks (arg ∷ args) = frame (bulk arg) (bulks args)

blob-eq : (arg : List ℕ) → blob b'$' arg ≡ header b'$' (length arg) ++ (arg ++ 13 ∷ 10 ∷ [])
unfolding blob line header
blob-eq arg = refl

append_step :
    (buff arg : List ℕ) (later : List (List ℕ)) (rest : List ℕ)
    → join later ≡ next_buff buff arg ++ rest
    → join (add_chunks buff arg later) ≡ buff ++ (blob b'$' arg ++ rest)
unfolding next_buff add_chunks
append_step buff arg later rest h = elim (Bool-cases (is_large buff arg)) [
  | inl e ↦
      let later_bytes : join later ≡ 13 ∷ 10 ∷ rest = rw e at h in
      rw (e, later_bytes, blob-eq arg) (simp append_assoc)
  | inr e ↦ let later_bytes = rw e at h in rw (e, later_bytes, blob-eq arg) (simp append_assoc)
]

relate :
    (buff arg : List ℕ) (chunks : Option (List (List ℕ))) (raws : Option (List (List ℕ)))
    → Option.map join chunks
      ≡ Option.map (λ (args : List (List ℕ)). next_buff buff arg ++ encode_all (bulks args)) raws
    → Option.map join (Option.map (add_chunks buff arg) chunks)
      ≡ Option.map
          (λ args. buff ++ encode_all (bulks args))
          (Option.map (λ (later : List (List ℕ)). arg ∷ later) raws)
unfolding bulks Frame.encode
relate buff arg none none h = refl
relate buff arg none (some args) h = cc
relate buff arg (some chunks) none h = cc
relate buff arg (some chunks) (some args) h =
    let same : join chunks ≡ next_buff buff arg ++ encode_all (bulks args) = cc in
    ap some (append_step buff arg chunks (encode_all (bulks args)) same)

module _ (codec : Codec) where
  -- Every argument encoded, in order; `none` if one of them cannot be.
  unfoldable pub encode_each : List Argument → Option (List (List ℕ))
  encode_each [] = some []
  encode_each (arg ∷ args) = encode codec arg >>= λ bytes.
      Option.map (λ (later : List (List ℕ)). bytes ∷ later) (encode_each args)

  pack_args-join :
      (args : List Argument) (buff : List ℕ)
      → Option.map join (pack_args codec buff args)
        ≡ Option.map (λ raws. buff ++ encode_all (bulks raws)) (encode_each args)
  unfolding pack_args encode_each bulks Frame.encode
  pack_args-join [] buff = refl
  pack_args-join (arg ∷ args) buff = elim (Option-cases (encode codec arg)) [
    | inl e ↦ rw e refl
    | inr (bytes, e) ↦ rw e (
        relate buff bytes (pack_args codec (next_buff buff bytes) args) (encode_each args)
          (pack_args-join args (next_buff buff bytes)))
  ]

  encode_each-count :
      (args : List Argument) (raws : List (List ℕ))
      → encode_each args ≡ some raws
      → length args ≡ count (bulks raws)
  unfolding encode_each bulks count
  encode_each-count [] raws h = let same : [] ≡ raws = cc in rw (← same) refl
  encode_each-count (arg ∷ args) raws h = elim (Option-cases (encode codec arg)) [
    | inl e ↦ let no : none ≡ some raws = rw e at h in cc
    | inr (bytes, e) ↦ elim (Option-cases (encode_each args)) [
      | inl f ↦ let no : none ≡ some raws = rw (e, f) at h in cc
      | inr (later, f) ↦
          let same : some (bytes ∷ later) ≡ some raws = rw (e, f) at h in
          let shape : bytes ∷ later ≡ raws = cc in
          rw (← shape) (ap suc (encode_each-count args later f))
    ]
  ]

  -- The frame that a command stands for: the array of its words and of its arguments.
  unfoldable pub command_bytes : List ℕ → List Argument → Option (List ℕ)
  command_bytes command args =
      Option.map (λ raws. Frame.encode (array (bulks raws)))
        (encode_each (cleaned_args command args))

  -- The chunks of a command, put together, are the array of bulk strings of its words and arguments,
  -- wherever it was cut; where an argument cannot be encoded there is neither.
  pub pack_command-join :
      (command : List ℕ) (args : List Argument)
      → Option.map join (pack_command codec command args) ≡ command_bytes command args
  unfolding pack_command command_bytes
  pack_command-join command args =
      let cleaned = cleaned_args command args in
      pack_args-join cleaned (header b'*' (length cleaned))
      ∙ elim (Option-cases (encode_each cleaned)) [
        | inl e ↦ rw e refl
        | inr (raws, e) ↦
            rw (e, encode_each-count cleaned raws e) (unfold header Frame.encode line in refl)
      ]

  unfoldable pub one_bytes : Argument × List Argument → Option (List ℕ)
  one_bytes (name, args) = encode codec name >>= λ command. command_bytes command args

  unfoldable pub commands_bytes : List (Argument × List Argument) → Option (List ℕ)
  commands_bytes [] = some []
  commands_bytes (cmd ∷ commands) = one_bytes cmd >>= λ bytes.
      Option.map (λ (later : List ℕ). bytes ++ later) (commands_bytes commands)

  pack_one-join :
      (cmd : Argument × List Argument) → Option.map join (pack_one codec cmd) ≡ one_bytes cmd
  unfolding pack_one one_bytes
  pack_one-join (name, args) = elim (Option-cases (encode codec name)) [
    | inl e ↦ rw e refl
    | inr (command, e) ↦ rw e (pack_command-join command args)
  ]

  flush :
      (full : Bool) (held : List (List ℕ)) (rest : Option (List (List ℕ))) (later : Option (List ℕ))
      → Option.map join rest
        ≡ Option.map (λ (bytes : List ℕ). join (if full then [] else held) ++ bytes) later
      → Option.map join (Option.map (λ output. if full then join held ∷ output else output) rest)
        ≡ Option.map (λ (bytes : List ℕ). join held ++ bytes) later
  flush true held none none h = refl
  flush true held none (some bytes) h = cc
  flush true held (some output) none h = cc
  flush true held (some output) (some bytes) h = let same : join output ≡ bytes = cc in rw same refl
  flush false held none none h = refl
  flush false held none (some bytes) h = cc
  flush false held (some output) none h = cc
  flush false held (some output) (some bytes) h = h

  regroup :
      (pieces chunks : List (List ℕ)) (later : Option (List ℕ))
      → Option.map (λ (bytes : List ℕ). join (pieces ++ chunks) ++ bytes) later
        ≡ Option.map
            (λ (bytes : List ℕ). join pieces ++ bytes)
            (Option.map (λ (bytes : List ℕ). join chunks ++ bytes) later)
  regroup pieces chunks none = refl
  regroup pieces chunks (some bytes) = ap some (
      ap (λ (front : List ℕ). front ++ bytes) (join-append pieces chunks)
      ∙ append_assoc (join pieces) (join chunks) bytes)

  pack_more-join :
      (commands : List (Argument × List Argument)) (pieces : List (List ℕ)) (size : ℕ)
      → Option.map join (pack_more codec pieces size commands)
        ≡ Option.map (λ (later : List ℕ). join pieces ++ later) (commands_bytes commands)
  unfolding pack_more commands_bytes
  pack_more-join [] [] size = refl
  pack_more-join [] (piece ∷ pieces) size = refl
  pack_more-join (cmd ∷ commands) pieces size = elim (Option-cases (pack_one codec cmd)) [
    | inl e ↦
        let none_either : none ≡ one_bytes cmd = rw e at (pack_one-join cmd) in
        rw (e, ← none_either) refl
    | inr (chunks, e) ↦
        let same : some (join chunks) ≡ one_bytes cmd = rw e at (pack_one-join cmd) in
        let full = ltb 6000 (size + length (join chunks)) in
        let held = pieces ++ chunks in
        let later =
          pack_more-join commands (if full then [] else held)
            (if full then 0 else size + length (join chunks)) in
        rw (e, ← same)
          (flush full held _ (commands_bytes commands) later
            ∙ regroup pieces chunks (commands_bytes commands))
  ]

  -- What `pack_commands` sends is the frames of the commands, in order, wherever it cuts them.
  pub pack_commands-join :
      (commands : List (Argument × List Argument))
      → Option.map join (pack_commands codec commands) ≡ commands_bytes commands
  unfolding pack_commands
  pack_commands-join commands =
      pack_more-join commands [] 0 ∙ (elim (Option-cases (commands_bytes commands)) [
        | inl e ↦ rw e refl
        | inr (bytes, e) ↦ rw e refl
      ])

-- ===== src/Resp/Packer.antt =====
-- `Packer` of coredis/_packer.py.
pub mod Join
pub mod Echo
use mathlib.Core.Option
use coredis.Prelude.{
  ℕ, ◌+◌, Bool, true, false, ◌||◌, Option, none, some, List, [], ◌∷◌, ◌++◌, map, ◌==◌, ltb,
  if◌then◌else◌, length, join,
}
use coredis.Prelude.Int.{ℤ}
use coredis.Prelude.Partial.{◌>>=◌}
use coredis.Resp.Number.{decimal, show_int, is_space}

-- `ValueT`: a str by its code points, an int (bool is one), a float by its bit pattern, bytes.
pub data Argument : Type 0 where
  text : List ℕ → Argument
  integer : ℤ → Argument
  floating : ℕ → Argument
  raw : List ℕ → Argument

-- What the packer calls of Python: `value.encode(encoding)`, or its error, and `b"%.15g" % value`.
pub record Codec : Type 0 where
  pub encode_text : List ℕ → Option (List ℕ)
  pub format_float : ℕ → List ℕ

-- `b" " in command`
unfoldable pub has_space : List ℕ → Bool
has_space [] = false
has_space (c ∷ rest) = c == b' ' || has_space rest

unfoldable pub add_word : List ℕ → List (List ℕ) → List (List ℕ)
add_word [] words = words
add_word (c ∷ word) words = (c ∷ word) ∷ words

-- `split()`, in the middle of a word
unfoldable pub split_from : List ℕ → List ℕ → List (List ℕ)
unfolding is_space add_word
split_from word [] = add_word word []
split_from word (c ∷ rest) =
    let later = split_from (if is_space c then [] else word ++ c ∷ []) rest in
    if is_space c then add_word word later else later

unfoldable pub cleaned_args : List ℕ → List Argument → List Argument
unfolding has_space split_from
cleaned_args command args =
    if has_space command then map raw (split_from [] command) ++ args else raw command ∷ args

-- `SYM_DOLLAR, b"%d" % len(arg), SYM_CRLF` and `SYM_STAR, b"%d" % len(cleaned_args), SYM_CRLF`
unfoldable pub header : ℕ → ℕ → List ℕ
header marker size = marker ∷ decimal size ++ 13 ∷ 10 ∷ []

-- Where one argument ends: what goes to the output, and the buffer that the next one finds.
unfoldable pub is_large : List ℕ → List ℕ → Bool
is_large buff arg = ltb 6000 (length buff) || ltb 6000 (length arg)

unfoldable pub next_buff : List ℕ → List ℕ → List ℕ
unfolding is_large
next_buff buff arg =
    if is_large buff arg
    then 13 ∷ 10 ∷ []
    else buff ++ (header b'$' (length arg) ++ (arg ++ 13 ∷ 10 ∷ []))

unfoldable pub add_chunks : List ℕ → List ℕ → List (List ℕ) → List (List ℕ)
unfolding is_large
add_chunks buff arg later =
    if is_large buff arg then (buff ++ header b'$' (length arg)) ∷ arg ∷ later else later

-- `none` is the error of the encoder.
module _ (codec : Codec) where
  unfoldable pub encode : Argument → Option (List ℕ)
  unfolding show_int
  encode (text value) = codec.encode_text value
  encode (integer value) = some (show_int value)
  encode (floating value) = some (codec.format_float value)
  encode (raw value) = some value

  -- The loop over the arguments, from the buffer that it has; the result is what it appends to
  -- `output`, the last buffer included.
  unfoldable pub pack_args : List ℕ → List Argument → Option (List (List ℕ))
  pack_args buff [] = some (buff ∷ [])
  pack_args buff (arg ∷ args) = encode arg >>= λ bytes.
      Option.map (add_chunks buff bytes) (pack_args (next_buff buff bytes) args)

  unfoldable pub pack_command : List ℕ → List Argument → Option (List (List ℕ))
  pack_command command args =
      let cleaned = cleaned_args command args in pack_args (header b'*' (length cleaned)) cleaned

  -- A command of `pack_commands` is a tuple with a first element.
  unfoldable pub pack_one : Argument × List Argument → Option (List (List ℕ))
  pack_one (name, args) = encode name >>= λ command. pack_command command args

  -- The loop over the commands, with the pieces that it holds and their length.
  unfoldable pub pack_more :
      List (List ℕ) → ℕ → List (Argument × List Argument) → Option (List (List ℕ))
  pack_more [] buffer_length [] = some []
  pack_more (piece ∷ pieces) buffer_length [] = some (join (piece ∷ pieces) ∷ [])
  pack_more pieces buffer_length (cmd ∷ commands) = pack_one cmd >>= λ chunks.
      let held = pieces ++ chunks in
      let size = buffer_length + length (join chunks) in
      let full = ltb 6000 size in
      Option.map (λ output. if full then join held ∷ output else output)
        (pack_more (if full then [] else held) (if full then 0 else size) commands)

  unfoldable pub pack_commands : List (Argument × List Argument) → Option (List (List ℕ))
  pack_commands commands = pack_more [] 0 commands

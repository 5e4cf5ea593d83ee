-- ===== src/KeySpec/Spec.antt =====
-- The lambdas of the tables as terms, and what each computes from the arguments of a command.
use mathlib.Core.Option
use mathlib.Core.List.{reverse}
use coredis.Prelude.{
  ℕ, suc, ◌+◌, ◌-◌, ◌/◌, ◌^◌, Bool, true, false, Option, none, some, List, [], ◌∷◌, ◌++◌, ◌==◌,
  if◌then◌else◌, length, get_elem?,
}
use coredis.Prelude.Int.{ℤ, pos, sub_ℕ, ◌+ℤ◌}
use coredis.Resp.Value.{same_codes, magnitude, is_finite, is_nan}
use coredis.Resp.Number.{parse_int}
use coredis.Resp.Packer.{Argument, text, integer, floating, raw}
use coredis.Resp.Errors.{codes}
use coredis.KeySpec.Slices.{slice, pick, index}

pub data Failure : Type 0 where
  index_error value_error overflow_error : Failure

pub data Extraction (A : Type 0) : Type 0 where
  extracted : A → Extraction A
  failed : Failure → Extraction A

infixl 5 ◌>>=◌
abbrev pub ◌>>=◌ : {A B : Type 0} → Extraction A → (A → Extraction B) → Extraction B
extracted a >>= f = f a
failed e >>= f = failed e

-- `len(args)`, `len(args) - n`, a literal, and the start of the slice plus `int(args[k])`.
pub data Bound : Type 0 where
  len : Bound
  len_less : ℕ → Bound
  literal : ℤ → Bound
  counted : ℕ → Bound

-- `(args[i],)`, `args[i:j]`, `args[i:j:k]`, a sum of tuples, the keys of XREAD behind `STREAMS`, those
-- of MIGRATE behind the last `KEYS`, and the argument behind a keyword; the last three are empty
-- where the keyword is not in the arguments.
pub data Spec : Type 0 where
  one : ℕ → Spec
  range : ℕ → Bound → Spec
  stepped : ℕ → Bound → ℕ → Spec
  both : Spec → Spec → Spec
  streams : ℕ → Spec
  last_keys : Spec
  behind : List ℕ → ℕ → Spec

-- `keyword == arg`. A token of coredis/tokens.py is its bytes.
unfoldable pub is_keyword : List ℕ → Argument → Bool
unfolding same_codes
is_keyword keyword (raw bytes) = same_codes bytes keyword
is_keyword keyword _ = false

unfoldable pub has_keyword : List ℕ → List Argument → Bool
has_keyword keyword [] = false
has_keyword keyword (a ∷ args) =
    let later = has_keyword keyword args in if is_keyword keyword a then true else later

unfoldable pub or_value_error : {A : Type 0} → Option A → Extraction A
or_value_error none = failed value_error
or_value_error (some a) = extracted a

-- `int(f)` of a float
unfoldable pub truncate : ℕ → Extraction ℤ
unfolding magnitude is_finite is_nan
truncate f =
    if is_finite f
    then extracted
        (if f / 2 ^ 63 == 0 then pos (magnitude f / 2 ^ 1075) else sub_ℕ 0 (magnitude f / 2 ^ 1075))
    else if is_nan f
    then failed value_error
    else failed overflow_error

-- `int(arg)`, of texts in ASCII
unfoldable pub int_of : Argument → Extraction ℤ
unfolding or_value_error parse_int truncate
int_of (text codes) = or_value_error (parse_int codes)
int_of (raw bytes) = or_value_error (parse_int bytes)
int_of (integer n) = extracted n
int_of (floating f) = truncate f

-- `args[i]`
unfoldable pub item : ℕ → List Argument → Extraction Argument
item i args = elim (get_elem? args i) [ none ↦ failed index_error | some a ↦ extracted a ]

unfoldable pub resolve : ℕ → Bound → List Argument → Extraction ℤ
unfolding item int_of
resolve start len args = extracted (pos (length args))
resolve start (len_less n) args = extracted (sub_ℕ (length args) n)
resolve start (literal j) args = extracted j
resolve start (counted k) args = item k args >>= λ a. int_of a >>= λ n. extracted (pos start +ℤ n)

-- `args[1 + kwpos : len(args) - (len(args) - (kwpos + 1)) // 2]`
unfoldable pub first_half : ℕ → List Argument → List Argument
first_half kwpos args = slice (suc kwpos) (pos (length args - (length args - (kwpos + 1)) / 2)) args

-- `len(args) - list(reversed(args)).index(b"KEYS", 1) - 1`
unfoldable pub last_index : List ℕ → List Argument → Option ℕ
unfolding index
last_index keyword args =
    Option.map (λ i. length args - i - 1) (index (is_keyword keyword) 1 (reverse args))

abbrev pub streams_keyword : List ℕ
streams_keyword = codes "STREAMS"

abbrev pub keys_keyword : List ℕ
keys_keyword = codes "KEYS"

-- `keys if keyword in args else ()`
unfoldable pub when_keyword :
    List ℕ → List Argument → Extraction (List Argument) → Extraction (List Argument)
unfolding has_keyword
when_keyword keyword args keys = if has_keyword keyword args then keys else extracted []

unfoldable pub keyword_index : List ℕ → ℕ → List Argument → Extraction ℕ
unfolding or_value_error index is_keyword
keyword_index keyword start args = or_value_error (index (is_keyword keyword) start args)

unfoldable pub streams_keys : ℕ → List Argument → Extraction (List Argument)
streams_keys start args =
    keyword_index streams_keyword start args >>= λ kwpos. extracted (first_half kwpos args)

unfoldable pub migrate_keys : List Argument → Extraction (List Argument)
migrate_keys args = or_value_error (last_index keys_keyword args) >>= λ kwpos.
    extracted (slice (suc kwpos) (pos (length args)) args)

unfoldable pub key_behind : List ℕ → ℕ → List Argument → Extraction (List Argument)
key_behind keyword start args =
    keyword_index keyword start args >>= λ kwpos. item (suc kwpos) args >>= λ a. extracted (a ∷ [])

unfoldable pub eval : Spec → List Argument → Extraction (List Argument)
eval (one i) args = item i args >>= λ a. extracted (a ∷ [])
eval (range i j) args = resolve i j args >>= λ end. extracted (slice i end args)
eval (stepped i j step) args =
    resolve i j args >>= λ end. extracted (pick (step - 1) 0 (slice i end args))
eval (both s t) args =
    let left = eval s args in
    let right = eval t args in left >>= λ keys. right >>= λ more. extracted (keys ++ more)
eval (streams start) args = when_keyword streams_keyword args (streams_keys start args)
eval last_keys args = when_keyword keys_keyword args (migrate_keys args)
eval (behind keyword start) args = when_keyword keyword args (key_behind keyword start args)

-- ===== src/Resp/Value.antt =====
-- The Python values that a response is made of (`ResponseType` of coredis/typing.py), their
-- equality, and the containers that coredis/parser.py fills.
--
-- A float is its IEEE 754 bit pattern; a str is its list of code points. A dict keeps its
-- insertion order. A set is listed in the order of insertion too: nothing in the parser reads the
-- order that Python gives it.
use coredis.Prelude.{
  ℕ, ◌+◌, ◌*◌, ◌/◌, ◌%◌, ◌^◌, Bool, true, false, not, ◌&&◌, ◌||◌, List, [], ◌∷◌, ◌==◌,
  if◌then◌else◌,
}
use coredis.Prelude.Int.{ℤ, pos, negsuc, eq_ℤ}

-- The exception classes that `Parser.EXCEPTION_CLASSES` names, and `ResponseError`.
pub data ErrorClass : Type 0 where
  ask_error stream_duplicate_consumer_group_error cluster_down_error : ErrorClass
  cluster_cross_slot_error connection_error unknown_command_error exec_abort_error : ErrorClass
  busy_loading_error no_script_error moved_error authentication_required_error : ErrorClass
  stream_consumer_group_error no_key_error authorization_error protocol_error : ErrorClass
  not_busy_error read_only_error try_again_error unblocked_error : ErrorClass
  authentication_failure_error wrong_type_error response_error : ErrorClass

mutual
  pub data Value : Type 0 where
    null : Value
    bool : Bool → Value
    int : ℤ → Value
    float : ℕ → Value
    bytes : List ℕ → Value
    str : List ℕ → Value
    list : Values → Value
    tuple : Values → Value
    set : Values → Value
    frozenset : Values → Value
    dict : Pairs → Value
    error : ErrorClass → List ℕ → Value

  pub data Values : Type 0 where
    nil : Values
    cons : Value → Values → Values

  pub data Pairs : Type 0 where
    end : Pairs
    pair : Value → Value → Pairs → Pairs

unfoldable pub snoc : Values → Value → Values
snoc nil v = cons v nil
snoc (cons x xs) v = cons x (snoc xs v)

-- `==` of two byte strings or texts
unfoldable pub same_codes : List ℕ → List ℕ → Bool
same_codes [] [] = true
same_codes (a ∷ xs) (b ∷ ys) = a == b && same_codes xs ys
same_codes _ _ = false

-- A finite float's magnitude times 2 ^ 1075, which is a whole number.
unfoldable pub magnitude : ℕ → ℕ
magnitude f =
    let exponent = f / 2 ^ 52 % 2 ^ 11 in
    let fraction = f % 2 ^ 52 in
    if exponent == 0 then fraction * 2 else (fraction + 2 ^ 52) * 2 ^ exponent

unfoldable pub is_finite : ℕ → Bool
is_finite f = not (f / 2 ^ 52 % 2 ^ 11 == 2047)

unfoldable pub is_nan : ℕ → Bool
unfolding is_finite
is_nan f = not (is_finite f) && not (f % 2 ^ 52 == 0)

unfoldable pub is_zero : ℕ → Bool
is_zero f = f % 2 ^ 63 == 0

-- `a == b` of two floats: NaN equals nothing, and the two zeros are equal.
unfoldable pub same_float : ℕ → ℕ → Bool
unfolding is_nan is_zero
same_float a b = not (is_nan a) && (a == b || (is_zero a && is_zero b))

-- `f == n` of a float and an int
unfoldable pub float_is_int : ℕ → ℤ → Bool
unfolding is_finite magnitude
float_is_int f (pos n) = is_finite f && ((f / 2 ^ 63 == 0 || n == 0) && magnitude f == n * 2 ^ 1075)
float_is_int f (negsuc n) = is_finite f && (f / 2 ^ 63 == 1 && magnitude f == (n + 1) * 2 ^ 1075)

abbrev bit : Bool → ℤ
bit b = if b then pos 1 else pos 0

unfoldable pub any_value : (Value → Bool) → Values → Bool
any_value p nil = false
any_value p (cons v vs) = p v || any_value p vs

unfoldable pub count_values : Values → ℕ
count_values nil = 0
count_values (cons v vs) = 1 + count_values vs

-- `bool(v)`; an exception object is true.
unfoldable pub is_truthy : Value → Bool
unfolding is_zero
is_truthy null = false
is_truthy (bool b) = b
is_truthy (int n) = not (eq_ℤ n (pos 0))
is_truthy (float f) = not (is_zero f)
is_truthy (bytes []) = false
is_truthy (str []) = false
is_truthy (list nil) = false
is_truthy (tuple nil) = false
is_truthy (set nil) = false
is_truthy (frozenset nil) = false
is_truthy (dict end) = false
is_truthy _ = true

same_number : ℤ → Value → Bool
unfolding float_is_int
same_number n (bool c) = eq_ℤ n (bit c)
same_number n (int m) = eq_ℤ n m
same_number n (float f) = float_is_int f n
same_number n _ = false

same_as_float : ℕ → Value → Bool
unfolding float_is_int same_float
same_as_float f (bool c) = float_is_int f (bit c)
same_as_float f (int m) = float_is_int f m
same_as_float f (float g) = same_float f g
same_as_float f _ = false

same_as_bytes : List ℕ → Value → Bool
unfolding same_codes
same_as_bytes a (bytes b) = same_codes a b
same_as_bytes a _ = false

same_as_str : List ℕ → Value → Bool
unfolding same_codes
same_as_str a (str b) = same_codes a b
same_as_str a _ = false

-- The elements that a tuple or a frozenset is compared by; `other` is what any other value gives.
with_tuple : (Values → Bool) → Value → Bool
with_tuple p (tuple vs) = p vs
with_tuple p _ = false

with_frozenset : (Values → Bool) → Value → Bool
with_frozenset p (frozenset vs) = p vs
with_frozenset p _ = false

with_head : (Value → Bool) → (Values → Bool) → Values → Bool
with_head p q nil = false
with_head p q (cons v vs) = p v && q vs

is_nil : Values → Bool
is_nil nil = true
is_nil (cons v vs) = false

is_null : Value → Bool
is_null null = true
is_null _ = false

-- `a == b` of two hashable values, as a dict or a set compares its keys: numbers by their value,
-- whatever their type, frozensets by their elements. Two exception objects that were made apart
-- are never equal.
unfoldable mutual
  unfolding same_number same_as_float same_as_bytes same_as_str with_tuple with_frozenset with_head
      is_nil is_null any_value count_values

  pub same_key : Value → Value → Bool
  same_key null w = is_null w
  same_key (bool b) w = same_number (bit b) w
  same_key (int n) w = same_number n w
  same_key (float f) w = same_as_float f w
  same_key (bytes a) w = same_as_bytes a w
  same_key (str a) w = same_as_str a w
  same_key (tuple vs) w = with_tuple (same_keys vs) w
  same_key (frozenset vs) w =
      with_frozenset (λ ws. count_values vs == count_values ws && all_among vs ws) w
  same_key (list vs) w = false
  same_key (set vs) w = false
  same_key (dict ps) w = false
  same_key (error c t) w = false

  pub same_keys : Values → Values → Bool
  same_keys nil ws = is_nil ws
  same_keys (cons v vs) ws = with_head (same_key v) (same_keys vs) ws

  pub all_among : Values → Values → Bool
  all_among nil ws = true
  all_among (cons v vs) ws = any_value (same_key v) ws && all_among vs ws

-- `container[key] = item`: a key that is there keeps its place and its first spelling.
unfoldable pub dict_set : Pairs → Value → Value → Pairs
unfolding same_key
dict_set end key item = pair key item end
dict_set (pair k v rest) key item =
    if same_key k key then pair k item rest else pair k v (dict_set rest key item)

-- `container.add(item)`
unfoldable pub set_add : Values → Value → Values
unfolding any_value same_key snoc
set_add vs item = if any_value (same_key item) vs then vs else snoc vs item

-- `RESPNode.ensure_hashable`
unfoldable mutual
  unfolding set_add

  pub ensure_hashable : Value → Value
  ensure_hashable (set vs) = frozenset (add_hashable vs nil)
  ensure_hashable (list vs) = tuple (hashable_items vs)
  ensure_hashable (dict ps) = tuple (hashable_pairs ps)
  ensure_hashable null = null
  ensure_hashable (bool b) = bool b
  ensure_hashable (int n) = int n
  ensure_hashable (float f) = float f
  ensure_hashable (bytes a) = bytes a
  ensure_hashable (str a) = str a
  ensure_hashable (tuple vs) = tuple vs
  ensure_hashable (frozenset vs) = frozenset vs
  ensure_hashable (error c t) = error c t

  pub add_hashable : Values → Values → Values
  add_hashable nil done = done
  add_hashable (cons v vs) done = add_hashable vs (set_add done (ensure_hashable v))

  pub hashable_items : Values → Values
  hashable_items nil = nil
  hashable_items (cons v vs) = cons (ensure_hashable v) (hashable_items vs)

  pub hashable_pairs : Pairs → Values
  hashable_pairs end = nil
  hashable_pairs (pair k v ps) =
      cons (tuple (cons k (cons (ensure_hashable v) nil))) (hashable_pairs ps)

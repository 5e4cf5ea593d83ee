-- ===== src/Resp/Number.antt =====
-- `int(chunk)` of a byte string, and `b"%d" % n`.
pub mod Decimal
use mathlib.Core.Option
use mathlib.Core.List.{reverse}
use coredis.Prelude.{
  ltb, zero, suc, ◌%◌, ◌/◌, ℕ, ◌+◌, ◌-◌, ◌*◌, Bool, true, false, ◌&&◌, ◌||◌, Option, none, some,
  List, [], ◌∷◌, ◌==◌, leb, if◌then◌else◌,
}
use coredis.Prelude.Int.{ℤ, pos, negsuc, sub_ℕ}

unfoldable pub is_digit : ℕ → Bool
is_digit c = leb b'0' c && leb c b'9'

unfoldable pub is_space : ℕ → Bool
is_space c = c == 32 || (leb 9 c && leb c 13)

unfoldable pub strip_left : List ℕ → List ℕ
unfolding is_space
strip_left [] = []
strip_left (c ∷ rest) = let more = strip_left rest in if is_space c then more else c ∷ rest

unfoldable pub strip : List ℕ → List ℕ
unfolding strip_left
strip cs = reverse (strip_left (reverse (strip_left cs)))

-- Decimal digits, with single underscores between them. `after_digit` tells whether the last
-- character read was a digit.
unfoldable pub digits_from : Bool → ℕ → List ℕ → Option ℕ
unfolding is_digit
digits_from after_digit n [] = if after_digit then some n else none
digits_from after_digit n (c ∷ rest) =
    let next = digits_from true (n * 10 + (c - b'0')) rest in
    let gap = digits_from false n rest in
    if is_digit c then next else if after_digit && c == b'_' then gap else none

unfoldable pub signed : List ℕ → Option ℤ
unfolding digits_from
signed [] = none
signed (c ∷ rest) =
    if c == b'-'
    then Option.map (λ n. sub_ℕ 0 n) (digits_from false 0 rest)
    else if c == b'+'
    then Option.map pos (digits_from false 0 rest)
    else Option.map pos (digits_from false 0 (c ∷ rest))

-- `none` is the ValueError.
unfoldable pub parse_int : List ℕ → Option ℤ
unfolding signed strip
parse_int chunk = signed (strip chunk)

-- `b"%d" % n`: the digits are put before `done`, the last one first. `rounds` is above `n`.
unfoldable pub decimal_from : ℕ → ℕ → List ℕ → List ℕ
decimal_from zero n done = done
decimal_from (suc rounds) n done =
    let more = decimal_from rounds (n / 10) ((b'0' + n % 10) ∷ done) in
    if ltb n 10 then (b'0' + n) ∷ done else more

unfoldable pub decimal : ℕ → List ℕ
unfolding decimal_from
decimal n = decimal_from (suc n) n []

unfoldable pub show_int : ℤ → List ℕ
unfolding decimal
show_int (pos n) = decimal n
show_int (negsuc n) = b'-' ∷ decimal (suc n)

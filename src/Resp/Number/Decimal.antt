-- ===== src/Resp/Number/Decimal.antt =====
-- A number that is printed is read back, by the `int` of a byte string.
use mathlib.Core.Option
use mathlib.Core.List.{reverse, reverse-cons, reverse-reverse}
use coredis.Prelude.{
  ℕ, zero, suc, ◌+◌, ◌-◌, ◌*◌, ◌/◌, ◌%◌, ◌≤◌, ◌<◌, ◌≡◌, refl, ap, ◌∙◌, Bool, true, false, some,
  List, [], ◌∷◌, ◌++◌, ◌==◌, arith, ltb, Bool-cases, inl, inr,
}
use coredis.Prelude.Int.{ℤ, pos, negsuc}
use coredis.Resp.Number.{
  strip_left, strip, is_digit, digits_from, signed, parse_int, decimal_from, decimal, show_int,
}

-- Every byte is a decimal digit.
abbrev pub AllDigits : List ℕ → Type 0
AllDigits [] = Unit {0}
AllDigits (c ∷ rest) = (b'0' ≤ c) × (c ≤ b'9') × AllDigits rest

-- The bytes of a printed integer.
abbrev pub AllVisible : List ℕ → Type 0
AllVisible [] = Unit {0}
AllVisible (c ∷ rest) = (32 < c) × AllVisible rest

decimal_from-AllDigits :
    (rounds n : ℕ) (done : List ℕ) → AllDigits done → AllDigits (decimal_from rounds n done)
unfolding decimal_from
decimal_from-AllDigits zero n done h = h
decimal_from-AllDigits (suc rounds) n done h = elim (Bool-cases (ltb n 10)) [
  | inl small ↦ rw small (ground arith, ground arith, h)
  | inr large ↦ rw large (
      decimal_from-AllDigits rounds (n / 10) ((b'0' + n % 10) ∷ done) (omega arith, omega arith, h))
]

digits_from-digit :
    (b : Bool) (n d : ℕ) (rest : List ℕ)
    → d < 10
    → digits_from b n ((b'0' + d) ∷ rest) ≡ digits_from true (n * 10 + d) rest
unfolding digits_from
digits_from-digit b n d rest h =
    let digit : is_digit (b'0' + d) ≡ true = ground arith in
    let value : b'0' + d - b'0' ≡ d = omega arith in rw (digit, value)

-- Reading the digits of `n` is the same as having read `n`.
digits_from-decimal_from :
    (rounds n : ℕ) (done : List ℕ)
    → n < rounds
    → digits_from false 0 (decimal_from rounds n done) ≡ digits_from true n done
unfolding decimal_from
digits_from-decimal_from zero n done h = absurd (omega arith)
digits_from-decimal_from (suc rounds) n done h = elim (Bool-cases (ltb n 10)) [
  | inl small ↦
      let alone : 0 * 10 + n ≡ n = omega arith in
      rw (small, digits_from-digit false 0 n done (ground arith), alone)
  | inr large ↦
      let parts : n / 10 * 10 + n % 10 ≡ n = omega arith in
      rw (
        large,
        digits_from-decimal_from rounds (n / 10) ((b'0' + n % 10) ∷ done) (ground arith),
        digits_from-digit true (n / 10) (n % 10) done (omega arith),
        parts,
      )
]

digits_from-decimal : (n : ℕ) → digits_from false 0 (decimal n) ≡ some n
unfolding decimal
digits_from-decimal n =
    digits_from-decimal_from (suc n) n [] (omega arith) ∙ (unfold digits_from in refl)

pub decimal-AllDigits : (n : ℕ) → AllDigits (decimal n)
unfolding decimal
decimal-AllDigits n = decimal_from-AllDigits (suc n) n [] tt

AllDigits-AllVisible : (cs : List ℕ) → AllDigits cs → AllVisible cs
AllDigits-AllVisible [] h = tt
AllDigits-AllVisible (c ∷ cs) h = (omega arith, AllDigits-AllVisible cs h.2)

pub show_int-AllVisible : (z : ℤ) → AllVisible (show_int z)
unfolding show_int
show_int-AllVisible (pos n) = AllDigits-AllVisible (decimal n) (decimal-AllDigits n)
show_int-AllVisible (negsuc n) =
    (omega arith, AllDigits-AllVisible (decimal (suc n)) (decimal-AllDigits (suc n)))

strip_left-visible : (cs : List ℕ) → AllVisible cs → strip_left cs ≡ cs
unfolding strip_left
strip_left-visible [] h = refl
strip_left-visible (c ∷ cs) h = ground arith

AllVisible-append : (xs ys : List ℕ) → AllVisible xs → AllVisible ys → AllVisible (xs ++ ys)
AllVisible-append [] ys p q = q
AllVisible-append (x ∷ xs) ys p q = (p.0, AllVisible-append xs ys p.1 q)

AllVisible-reverse : (xs : List ℕ) → AllVisible xs → AllVisible (reverse xs)
AllVisible-reverse [] h = h
AllVisible-reverse (x ∷ xs) h =
    rw reverse-cons (AllVisible-append (reverse xs) (x ∷ []) (AllVisible-reverse xs h.1) (h.0, tt))

strip-visible : (cs : List ℕ) → AllVisible cs → strip cs ≡ cs
unfolding strip
strip-visible cs h =
    rw (strip_left-visible cs h, strip_left-visible (reverse cs) (AllVisible-reverse cs h))
      (reverse-reverse cs)

-- A digit string has no sign.
signed-digits :
    (cs : List ℕ) (n : ℕ)
    → AllDigits cs
    → digits_from false 0 cs ≡ some n
    → signed cs ≡ some (pos n)
unfolding signed digits_from
signed-digits [] n h e = cc
signed-digits (c ∷ cs) n h e =
    let no_minus : (c == b'-') ≡ false = ground arith in
    let no_plus : (c == b'+') ≡ false = ground arith in
    rw (no_minus, no_plus, signed) (ap (Option.map pos) e)

signed-show_int : (z : ℤ) → signed (show_int z) ≡ some z
unfolding show_int
signed-show_int (pos n) = signed-digits (decimal n) n (decimal-AllDigits n) (digits_from-decimal n)
signed-show_int (negsuc n) = unfold signed in rw (digits_from-decimal (suc n)) (ground arith)

-- `int` reads back what `%d` printed, for every integer.
pub parse_int-show_int : (z : ℤ) → parse_int (show_int z) ≡ some z
unfolding parse_int
parse_int-show_int z = rw (strip-visible (show_int z) (show_int-AllVisible z)) (signed-show_int z)

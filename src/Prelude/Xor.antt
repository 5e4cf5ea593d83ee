-- ===== src/Prelude/Xor.antt =====
-- Exclusive or of native numbers, one digit at a time, and of numbers that are shifted.
use Prim.Native.Nat.{digits, differ, bit_xor, bit_xor-bitwise}
use native.Mathlib.Nat.{le_refl, pow-suc}
use coredis.Prelude.{
  ℕ, zero, suc, ◌+◌, ◌*◌, ◌/◌, ◌%◌, ◌^◌, ◌≤◌, ◌<◌, ◌≡◌, refl, ap, sym, ◌∙◌, arith,
}

module _ (last : ℕ → ℕ) (digit : ℕ → ℕ → ℕ) where
  digits_of_zero : (rounds b : ℕ) → digits last digit rounds 0 b ≡ digits last digit 0 0 b
  digits_of_zero zero b = refl
  digits_of_zero (suc rounds) b = refl

  -- The count of rounds does not matter once it reaches the first number.
  digits-rounds :
      (b a few many : ℕ)
      → a ≤ many
      → a ≤ few
      → digits last digit many a b ≡ digits last digit few a b
  digits-rounds b zero few many p q = digits_of_zero many b ∙ sym (digits_of_zero few b)
  digits-rounds b (suc a) (suc few) (suc many) p q =
      ap (λ rest. rest * 2 + digit (suc a % 2) (b % 2))
        (digits-rounds (b / 2) (suc a / 2) few many (omega arith) (omega arith))
  digits-rounds b (suc a) zero many p q = absurd (omega arith)
  digits-rounds b (suc a) (suc few) zero p q = absurd (omega arith)

pub bit_xor_digit : (a b : ℕ) → bit_xor a b ≡ bit_xor (a / 2) (b / 2) * 2 + differ (a % 2) (b % 2)
bit_xor_digit zero b = simp bit_xor-bitwise (omega arith)
bit_xor_digit (suc a) b = simp bit_xor-bitwise (
    omega (
      arith,
      digits-rounds (λ y. y) differ (b / 2) (suc a / 2) (suc a / 2) a (omega arith) (le_refl _),
    ))

differ_zero : (x : ℕ) → differ x 0 ≡ x
differ_zero zero = refl
differ_zero (suc x) = refl

mul-two-pow : (q k : ℕ) → q * 2 ^ suc k ≡ 2 * (q * 2 ^ k)
mul-two-pow q k = omega (arith, ap (λ (t : ℕ). q * t) (pow-suc 2 k))

-- The low bits of the first number pass through where the second has none.
pub bit_xor_shifted :
    (k h l b : ℕ) → l < 2 ^ k → bit_xor (h * 2 ^ k + l) (b * 2 ^ k) ≡ bit_xor h b * 2 ^ k + l
bit_xor_shifted zero h l b p =
    let low : l ≡ 0 = omega arith in
    let left : h * 1 + l ≡ h = omega arith in
    let right : b * 1 ≡ b = omega arith in rw (left, right, low) (omega arith)
bit_xor_shifted (suc k) h l b p =
    let left : (h * 2 ^ suc k + l) / 2 ≡ h * 2 ^ k + l / 2 = omega (arith, mul-two-pow h k) in
    let right : (b * 2 ^ suc k) / 2 ≡ b * 2 ^ k = omega (arith, mul-two-pow b k) in
    let low : (h * 2 ^ suc k + l) % 2 ≡ l % 2 = omega (arith, mul-two-pow h k) in
    let none_low : (b * 2 ^ suc k) % 2 ≡ 0 = omega (arith, mul-two-pow b k) in
    rw (bit_xor_digit (h * 2 ^ suc k + l) (b * 2 ^ suc k), left, right, low, none_low, differ_zero)
      (omega (
        arith,
        bit_xor_shifted k h (l / 2) b (omega (arith, pow-suc 2 k)),
        mul-two-pow (bit_xor h b) k,
      ))

differ_bound : (x y : ℕ) → x < 2 → y < 2 → differ x y < 2
differ_bound zero y p q = q
differ_bound (suc zero) zero p q = p
differ_bound (suc zero) (suc zero) p q = omega arith
differ_bound (suc zero) (suc (suc y)) p q = absurd (omega arith)
differ_bound (suc (suc x)) y p q = absurd (omega arith)

pub bit_xor-lt : (k a b : ℕ) → a < 2 ^ k → b < 2 ^ k → bit_xor a b < 2 ^ k
bit_xor-lt zero a b p q =
    let x : a ≡ 0 = omega arith in let y : b ≡ 0 = omega arith in rw (x, y) (omega arith)
bit_xor-lt (suc k) a b p q = omega (
  arith,
  bit_xor_digit a b,
  differ_bound (a % 2) (b % 2) (omega arith) (omega arith),
  bit_xor-lt k (a / 2) (b / 2) (omega (arith, pow-suc 2 k)) (omega (arith, pow-suc 2 k)),
  pow-suc 2 k,
)

-- ===== src/Base/Bits.antt =====
-- The native `&` and `^` at variables: a mask with holes as digits, and the width of a sum mod 2.
use Prim.Native.Nat.{
  ℕ, zero, suc, ◌+◌, ◌*◌, ◌/◌, ◌%◌, ◌^◌, ◌≤◌, ◌<◌, min, max, digits, differ, bit_and, bit_xor,
  bit_and-bitwise, bit_xor-bitwise,
}
use mathlib.Core.Path.{◌≡◌, refl, sym, ◌∙◌}
use native.Mathlib.Nat.{pow-suc}
use native.Mathlib.Omega.{arith}

abbrev and_digits : ℕ → ℕ → ℕ → ℕ
and_digits rounds a mask = digits (λ b. zero) min rounds a mask

and_digits_none : (rounds mask : ℕ) → and_digits rounds 0 mask ≡ 0
and_digits_none zero mask = refl
and_digits_none (suc rounds) mask = refl

-- Rounds above the number do not count.
and_digits_rounds : (r s a b : ℕ) → a ≤ r → a ≤ s → and_digits r a b ≡ and_digits s a b
and_digits_rounds r s zero b hr hs = and_digits_none r b ∙ sym (and_digits_none s b)
and_digits_rounds zero s (suc a) b hr hs = absurd (omega arith)
and_digits_rounds (suc r) zero (suc a) b hr hs = absurd (omega arith)
and_digits_rounds (suc r) (suc s) (suc a) b hr hs =
    omega (arith, and_digits_rounds r s (suc a / 2) (b / 2) (omega arith) (omega arith))

-- The last digit of `a & b`, and the rest.
bit_and-digit : (a b : ℕ) → bit_and a b ≡ bit_and (a / 2) (b / 2) * 2 + min (a % 2) (b % 2)
bit_and-digit zero b = omega (
  arith,
  bit_and-bitwise 0 b,
  bit_and-bitwise (0 / 2) (b / 2),
  and_digits_none 0 b,
  and_digits_none 0 (b / 2),
)
bit_and-digit (suc a) b = omega (
  arith,
  bit_and-bitwise (suc a) b,
  bit_and-bitwise (suc a / 2) (b / 2),
  and_digits_rounds a (suc a / 2) (suc a / 2) (b / 2) (omega arith) (omega arith),
)

and_digits_empty : (rounds a : ℕ) → and_digits rounds a 0 ≡ 0
and_digits_empty zero a = refl
and_digits_empty (suc rounds) zero = refl
and_digits_empty (suc rounds) (suc a) = omega (arith, and_digits_empty rounds (suc a / 2))

bit_and_1 : (a : ℕ) → bit_and a 1 ≡ a % 2
bit_and_1 a =
    omega (arith, bit_and-digit a 1, bit_and-bitwise (a / 2) 0, and_digits_empty (a / 2) (a / 2))

bit_and_3 : (a : ℕ) → bit_and a 3 ≡ a % 4
bit_and_3 a = omega (arith, bit_and-digit a 3, bit_and_1 (a / 2))

bit_and_6 : (a : ℕ) → bit_and a 6 ≡ a / 2 % 4 * 2
bit_and_6 a = omega (arith, bit_and-digit a 6, bit_and_3 (a / 2))

bit_and_d : (a : ℕ) → bit_and a 0xD ≡ a % 2 + a / 4 % 4 * 4
bit_and_d a = omega (arith, bit_and-digit a 0xD, bit_and_6 (a / 2))

bit_and_1b : (a : ℕ) → bit_and a 0x1B ≡ a % 4 + a / 8 % 4 * 8
bit_and_1b a = omega (arith, bit_and-digit a 0x1B, bit_and_d (a / 2))

bit_and_37 : (a : ℕ) → bit_and a 0x37 ≡ a % 8 + a / 16 % 4 * 16
bit_and_37 a = omega (arith, bit_and-digit a 0x37, bit_and_1b (a / 2))

-- `a & 0x6F` keeps the bits 0 to 3, 5 and 6.
pub bit_and_6f : (a : ℕ) → bit_and a 0x6F ≡ a % 16 + a / 32 % 4 * 32
bit_and_6f a = omega (arith, bit_and-digit a 0x6F, bit_and_37 (a / 2))

differ-le-max : (x y : ℕ) → differ x y ≤ max x y
differ-le-max zero y = omega arith
differ-le-max (suc x) zero = omega arith
differ-le-max (suc x) (suc y) = omega (arith, differ-le-max x y)

xor_digits_lt :
    (width rounds a b : ℕ)
    → a < 2 ^ width
    → b < 2 ^ width
    → digits (λ c. c) differ rounds a b < 2 ^ width
xor_digits_lt width zero a b ha hb = hb
xor_digits_lt width (suc rounds) zero b ha hb = hb
xor_digits_lt zero (suc rounds) (suc a) b ha hb = absurd (omega arith)
xor_digits_lt (suc width) (suc rounds) (suc a) b ha hb = omega (
  arith,
  pow-suc 2 width,
  xor_digits_lt width rounds (suc a / 2) (b / 2) (omega (arith, pow-suc 2 width))
      (omega (arith, pow-suc 2 width)),
  differ-le-max (suc a % 2) (b % 2),
)

-- `a ^ b` is no wider than its arguments.
pub bit_xor-lt : (width a b : ℕ) → a < 2 ^ width → b < 2 ^ width → bit_xor a b < 2 ^ width
bit_xor-lt width a b ha hb = omega (arith, bit_xor-bitwise a b, xor_digits_lt width a a b ha hb)

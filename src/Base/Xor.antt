-- ===== src/Base/Xor.antt =====
-- The native `^` at variables: its last digit, and that it can be undone.
use Prim.Native.Nat.{
  ℕ, zero, suc, ◌+◌, ◌*◌, ◌/◌, ◌%◌, ◌^◌, ◌≤◌, ◌<◌, digits, differ, bit_xor, bit_xor-bitwise,
}
use mathlib.Core.Path.{◌≡◌, refl, sym, ◌∙◌}
use native.Mathlib.Nat.{pow-suc}
use native.Mathlib.Omega.{arith}

abbrev xor_digits : ℕ → ℕ → ℕ → ℕ
xor_digits rounds a b = digits (λ c. c) differ rounds a b

differ-mod : (x y : ℕ) → x < 2 → y < 2 → differ x y ≡ (x + y) % 2
differ-mod zero zero hx hy = refl
differ-mod zero (suc zero) hx hy = refl
differ-mod (suc zero) zero hx hy = refl
differ-mod (suc zero) (suc zero) hx hy = refl
differ-mod (suc (suc x)) y hx hy = absurd (omega arith)
differ-mod zero (suc (suc y)) hx hy = absurd (omega arith)
differ-mod (suc zero) (suc (suc y)) hx hy = absurd (omega arith)

xor_digits_none : (rounds b : ℕ) → xor_digits rounds 0 b ≡ b
xor_digits_none zero b = refl
xor_digits_none (suc rounds) b = refl

-- Rounds above the number do not count.
xor_digits_rounds : (r s a b : ℕ) → a ≤ r → a ≤ s → xor_digits r a b ≡ xor_digits s a b
xor_digits_rounds r s zero b hr hs = xor_digits_none r b ∙ sym (xor_digits_none s b)
xor_digits_rounds zero s (suc a) b hr hs = absurd (omega arith)
xor_digits_rounds (suc r) zero (suc a) b hr hs = absurd (omega arith)
xor_digits_rounds (suc r) (suc s) (suc a) b hr hs =
    omega (arith, xor_digits_rounds r s (suc a / 2) (b / 2) (omega arith) (omega arith))

-- The last digit of `a ^ b`, and the rest.
pub bit_xor-digit : (a b : ℕ) → bit_xor a b ≡ bit_xor (a / 2) (b / 2) * 2 + (a + b) % 2
bit_xor-digit zero b = omega (
  arith,
  bit_xor-bitwise 0 b,
  bit_xor-bitwise (0 / 2) (b / 2),
  xor_digits_none 0 b,
  xor_digits_none 0 (b / 2),
)
bit_xor-digit (suc a) b = omega (
  arith,
  bit_xor-bitwise (suc a) b,
  bit_xor-bitwise (suc a / 2) (b / 2),
  xor_digits_rounds a (suc a / 2) (suc a / 2) (b / 2) (omega arith) (omega arith),
  differ-mod (suc a % 2) (b % 2) (omega arith) (omega arith),
)

pub bit_xor-cancel_right :
    (width a b c : ℕ) → a < 2 ^ width → b < 2 ^ width → bit_xor a c ≡ bit_xor b c → a ≡ b
bit_xor-cancel_right zero a b c ha hb e = omega arith
bit_xor-cancel_right (suc width) a b c ha hb e =
    let halves : bit_xor (a / 2) (c / 2) ≡ bit_xor (b / 2) (c / 2) =
      omega (arith, bit_xor-digit a c, bit_xor-digit b c) in
    omega (
      arith,
      bit_xor-digit a c,
      bit_xor-digit b c,
      bit_xor-cancel_right width (a / 2) (b / 2) (c / 2) (omega (arith, pow-suc 2 width))
          (omega (arith, pow-suc 2 width)) halves,
    )

pub bit_xor-cancel_left :
    (width a b c : ℕ) → a < 2 ^ width → b < 2 ^ width → bit_xor c a ≡ bit_xor c b → a ≡ b
bit_xor-cancel_left zero a b c ha hb e = omega arith
bit_xor-cancel_left (suc width) a b c ha hb e =
    let halves : bit_xor (c / 2) (a / 2) ≡ bit_xor (c / 2) (b / 2) =
      omega (arith, bit_xor-digit c a, bit_xor-digit c b) in
    omega (
      arith,
      bit_xor-digit c a,
      bit_xor-digit c b,
      bit_xor-cancel_left width (a / 2) (b / 2) (c / 2) (omega (arith, pow-suc 2 width))
          (omega (arith, pow-suc 2 width)) halves,
    )

-- ===== src/Cli/Printed.antt =====
-- A number that is printed is read back.
use native.Mathlib.Nat.{mod-add-div', mod-lt, mul-le-mul_left, pow-suc}
use rtic_ecmaster.Base.{
  ℕ, zero, suc, ◌+◌, ◌*◌, ◌/◌, ◌%◌, ◌^◌, ◌≤◌, ◌<◌, ◌≡◌, ◌∙◌, arith, inl, inr, Bool-cases, some,
  List, [], ◌∷◌, ltb, ltb→lt, ltb→le, lt→ltb, ap, length, All,
}
use rtic_ecmaster.Cli.Numbers.{to_digit, digits_from, from_str_radix}
use rtic_ecmaster.Cli.Format.{digit_char, number_digits}

-- A division by two or more halves at least.
halved : (r n k : ℕ) → 2 ≤ r → n < 2 ^ suc k → n / r < 2 ^ k
halved r n k h lt =
    let whole = mod-add-div' n r in
    let twice = mul-le-mul_left (n / r) h in omega (arith, pow-suc 2 k)

to_digit-digit_char : (r d : ℕ) → r ≤ 16 → d < r → to_digit r (digit_char d) ≡ some d
unfolding to_digit
to_digit-digit_char r d h lt = ground arith

-- The bytes of a number: no sign, no blank, and no letter in base ten.
abbrev pub IsPlain : ℕ → ℕ → Type 0
IsPlain r c = (48 ≤ c) × (c ≤ 102) × (r ≤ 10 → c ≤ 57)

module _ (r : ℕ) (least : 2 ≤ r) (most : r ≤ 16) where
  digits_from-digit_char :
      (a d : ℕ) (s : List ℕ)
      → d < r
      → a * r + d < 2 ^ 64
      → digits_from r a (digit_char d ∷ s) ≡ digits_from r (a * r + d) s
  unfolding digits_from
  digits_from-digit_char a d s small fits = rw (to_digit-digit_char r d most small, lt→ltb _ _ fits)

  pub digits_from-number_digits :
      (k n : ℕ) (acc : List ℕ)
      → n < 2 ^ k
      → n < 2 ^ 64
      → 0 < k
      → digits_from r 0 (number_digits k r n acc) ≡ digits_from r n acc
  unfolding number_digits
  digits_from-number_digits zero n acc h b p = absurd (omega arith)
  digits_from-number_digits (suc k) n acc h b p = elim (Bool-cases (ltb n r)) [
    | inl small ↦ rw small (
        digits_from-digit_char 0 n acc (ltb→lt n r small) (omega arith)
        ∙ ap (λ v. digits_from r v acc) (omega arith))
    | inr large ↦
        let whole : n % r + n / r * r ≡ n = mod-add-div' n r in
        let below : n % r < r = mod-lt n (omega arith) in
        let rounds : 0 < k = some_rounds k (omega (arith, ltb→le n r large)) in
        rw large (
          digits_from-number_digits k (n / r) (digit_char (n % r) ∷ acc) (halved r n k least h)
            (halved r n 64 least (omega arith)) rounds
          ∙ digits_from-digit_char (n / r) (n % r) acc below (omega arith)
          ∙ ap (λ v. digits_from r v acc) (omega arith))
  ]
    where
      some_rounds : (k : ℕ) → 2 < 2 ^ suc k → 0 < k
      some_rounds zero h = absurd (omega arith)
      some_rounds (suc k) h = omega arith

  digit_char-IsPlain : (d : ℕ) → d < r → IsPlain r (digit_char d)
  digit_char-IsPlain d small = (ground arith, ground arith, λ h. ground arith)

  pub number_digits-IsPlain :
      (k n : ℕ) (acc : List ℕ) → All (IsPlain r) acc → All (IsPlain r) (number_digits k r n acc)
  unfolding number_digits
  number_digits-IsPlain zero n acc h = h
  number_digits-IsPlain (suc k) n acc h = elim (Bool-cases (ltb n r)) [
    | inl small ↦ rw small ((digit_char-IsPlain n (ltb→lt n r small), h))
    | inr large ↦ rw large (
        number_digits-IsPlain k (n / r) (digit_char (n % r) ∷ acc)
          (digit_char-IsPlain (n % r) (mod-lt n (omega arith)), h))
  ]

  pub length-number_digits :
      (k j n : ℕ) (acc : List ℕ)
      → n < 2 ^ suc j
      → length (number_digits k r n acc) ≤ suc j + length acc
  unfolding number_digits
  length-number_digits zero j n acc h = omega arith
  length-number_digits (suc k) zero n acc h = rw (lt→ltb n r (omega arith)) (omega arith)
  length-number_digits (suc k) (suc j) n acc h = elim (Bool-cases (ltb n r)) [
    | inl small ↦ rw small (omega arith)
    | inr large ↦ rw large (
        omega (
          arith,
          length-number_digits k j (n / r) (digit_char (n % r) ∷ acc) (halved r n (suc j) least h),
        ))
  ]

-- The text of a number is never empty.
number_digits_longer :
    (r k n : ℕ) (acc : List ℕ) → 0 < length acc → 0 < length (number_digits k r n acc)
unfolding number_digits
number_digits_longer r zero n acc h = h
number_digits_longer r (suc k) n acc h =
    ground (arith, number_digits_longer r k (n / r) (digit_char (n % r) ∷ acc))

pub number_digits-ne-nil : (r k n : ℕ) (acc : List ℕ) → 0 < length (number_digits (suc k) r n acc)
unfolding number_digits
number_digits-ne-nil r k n acc =
    ground (arith, number_digits_longer r k (n / r) (digit_char (n % r) ∷ acc))

-- A plain text has no sign, so its digits are read from the first.
pub from_str_radix-plain :
    (r q : ℕ) (s : List ℕ)
    → 0 < length s
    → All (IsPlain q) s
    → from_str_radix r s ≡ digits_from r 0 s
unfolding from_str_radix
from_str_radix-plain r q [] h p = absurd (omega arith)
from_str_radix-plain r q (c ∷ cs) h p = let plain : 48 ≤ c = p.0.0 in ground arith

-- ===== src/Cli/Reread.antt =====
-- Printed numbers as the parser of src/ethercat/cli.rs reads them.
use rtic_ecmaster.Base.{
  ℕ, zero, suc, ◌^◌, ◌≤◌, ◌<◌, ◌≡◌, refl, ◌∙◌, arith, none, some, List, [], ◌∷◌, ◌++◌, length, All,
  replicate,
}
use rtic_ecmaster.Cli.Text.{codes, strip_prefix, trim}
use rtic_ecmaster.Cli.Numbers.{
  digits_from, from_str_radix, strip_either, parse_trimmed, parse_uint, signed, parse_int, negated,
}
use rtic_ecmaster.Cli.Format.{decimal, hexadecimal}
use rtic_ecmaster.Cli.Printed.{
  IsPlain, digits_from-number_digits, number_digits-IsPlain, number_digits-ne-nil,
  from_str_radix-plain,
}
use rtic_ecmaster.Cli.Blanks.{IsSolid, trim-solid}

pub plain-IsSolid : (r : ℕ) (s : List ℕ) → All (IsPlain r) s → IsSolid s
plain-IsSolid r [] h = tt
plain-IsSolid r (c ∷ cs) h = (omega (arith, h.0.0), plain-IsSolid r cs h.1)

-- Digits of base ten begin with no prefix of another base, and with no minus sign.
unprefixed :
    (s : List ℕ)
    → All (IsPlain 10) s
    → (strip_either (codes "0x") (codes "0X") s ≡ none)
      × (strip_either (codes "0b") (codes "0B") s ≡ none)
      × (strip_prefix (codes "-") s ≡ none)
unfolding strip_prefix
unprefixed [] h = (refl, refl, refl)
unprefixed (c ∷ []) h = let low : 48 ≤ c = h.0.0 in (ground arith, ground arith, ground arith)
unprefixed (c ∷ d ∷ s) h =
    let low : 48 ≤ c = h.0.0 in
    let high : d ≤ 57 = h.1.0.2 (omega arith) in (ground arith, ground arith, ground arith)

parse_uint_step : (s : List ℕ) → parse_uint s ≡ parse_trimmed (trim s)
unfolding parse_uint
parse_uint_step s = refl

parse_int_step : (s : List ℕ) → parse_int s ≡ signed (strip_prefix (codes "-") (trim s)) (trim s)
unfolding parse_int
parse_int_step s = refl

parse_uint-plain :
    (s : List ℕ) → 0 < length s → All (IsPlain 10) s → parse_uint s ≡ digits_from 10 0 s
parse_uint-plain s l h =
    parse_uint_step s
    ∙ rw (trim-solid s (plain-IsSolid 10 s h), (unprefixed s h).0, (unprefixed s h).1)
        (from_str_radix-plain 10 10 s l h)

-- The text of a number, read as a `u64` and as an `i64`.
read_decimal : (n : ℕ) → n < 2 ^ 64 → digits_from 10 0 (decimal n) ≡ some n
unfolding digits_from
read_decimal n h =
    digits_from-number_digits 10 (omega arith) (omega arith) 64 n [] h h (omega arith)

pub decimal-IsPlain : (n : ℕ) → All (IsPlain 10) (decimal n)
decimal-IsPlain n = number_digits-IsPlain 10 (omega arith) (omega arith) 64 n [] tt

pub parse_uint-decimal : (n : ℕ) → n < 2 ^ 64 → parse_uint (decimal n) ≡ some n
parse_uint-decimal n h =
    parse_uint-plain (decimal n) (number_digits-ne-nil 10 63 n []) (decimal-IsPlain n)
    ∙ read_decimal n h

pub parse_int-decimal : (n : ℕ) → n < 2 ^ 64 → parse_int (decimal n) ≡ some n
parse_int-decimal n h =
    parse_int_step (decimal n)
    ∙ rw
        (
          trim-solid (decimal n) (plain-IsSolid 10 (decimal n) (decimal-IsPlain n)),
          (unprefixed (decimal n) (decimal-IsPlain n)).2,
        )
        (parse_uint-decimal n h)

minus_sign : (s : List ℕ) → strip_prefix (codes "-") (codes "-" ++ s) ≡ some s
unfolding strip_prefix
minus_sign s = refl

pub parse_int-minus : (n : ℕ) → n < 2 ^ 64 → parse_int (codes "-" ++ decimal n) ≡ some (negated n)
parse_int-minus n h =
    parse_int_step (codes "-" ++ decimal n)
    ∙ rw
        (trim-solid (codes "-" ++ decimal n)
          ((omega arith, plain-IsSolid 10 (decimal n) (decimal-IsPlain n))))
        (stripped (decimal n) (parse_uint-decimal n h))
  where
    stripped :
        (s : List ℕ)
        → parse_uint s ≡ some n
        → signed (strip_prefix (codes "-") (codes "-" ++ s)) (codes "-" ++ s) ≡ some (negated n)
    stripped s e = rw (minus_sign s) (rw e refl)

-- Zeros in front of the digits do not count.
digits_from-zeros :
    (k : ℕ) (s : List ℕ) → digits_from 16 0 (replicate k b'0' ++ s) ≡ digits_from 16 0 s
unfolding digits_from
digits_from-zeros zero s = refl
digits_from-zeros (suc k) s = digits_from-zeros k s

zeros-IsPlain : (k : ℕ) (s : List ℕ) → All (IsPlain 16) s → All (IsPlain 16) (replicate k b'0' ++ s)
zeros-IsPlain zero s h = h
zeros-IsPlain (suc k) s h = ((omega arith, omega arith, λ _. omega arith), zeros-IsPlain k s h)

zeros-length : (k : ℕ) (s : List ℕ) → 0 < length s → 0 < length (replicate k b'0' ++ s)
zeros-length zero s h = h
zeros-length (suc k) s h = omega arith

hex_prefix :
    (s : List ℕ)
    → (strip_prefix (codes "-") (codes "0x" ++ s) ≡ none)
      × (strip_either (codes "0x") (codes "0X") (codes "0x" ++ s) ≡ some s)
unfolding strip_prefix
hex_prefix s = (refl, refl)

-- `hexadecimal n` behind zeros.
abbrev pub wide_hex : ℕ → ℕ → List ℕ
wide_hex k n = replicate k b'0' ++ hexadecimal n

pub wide_hex-IsPlain : (k n : ℕ) → All (IsPlain 16) (wide_hex k n)
wide_hex-IsPlain k n =
    zeros-IsPlain k (hexadecimal n)
      (number_digits-IsPlain 16 (omega arith) (omega arith) 64 n [] tt)

read_wide_hex : (k n : ℕ) → n < 2 ^ 64 → from_str_radix 16 (wide_hex k n) ≡ some n
unfolding digits_from
read_wide_hex k n h =
    from_str_radix-plain 16 16 (wide_hex k n)
      (zeros-length k (hexadecimal n) (number_digits-ne-nil 16 63 n [])) (wide_hex-IsPlain k n)
    ∙ digits_from-zeros k (hexadecimal n)
    ∙ digits_from-number_digits 16 (omega arith) (omega arith) 64 n [] h h (omega arith)

pub prefixed-IsSolid : (s : List ℕ) → All (IsPlain 16) s → IsSolid (codes "0x" ++ s)
prefixed-IsSolid s h = (omega arith, (omega arith, plain-IsSolid 16 s h))

pub parse_uint-hex : (k n : ℕ) → n < 2 ^ 64 → parse_uint (codes "0x" ++ wide_hex k n) ≡ some n
parse_uint-hex k n h =
    parse_uint_step (codes "0x" ++ wide_hex k n)
    ∙ rw
        (
          trim-solid (codes "0x" ++ wide_hex k n)
              (prefixed-IsSolid (wide_hex k n) (wide_hex-IsPlain k n)),
          (hex_prefix (wide_hex k n)).1,
        )
        (read_wide_hex k n h)

pub parse_int-hex : (k n : ℕ) → n < 2 ^ 64 → parse_int (codes "0x" ++ wide_hex k n) ≡ some n
parse_int-hex k n h =
    parse_int_step (codes "0x" ++ wide_hex k n)
    ∙ rw
        (
          trim-solid (codes "0x" ++ wide_hex k n)
              (prefixed-IsSolid (wide_hex k n) (wide_hex-IsPlain k n)),
          (hex_prefix (wide_hex k n)).0,
        )
        (parse_uint-hex k n h)

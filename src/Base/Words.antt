-- ===== src/Base/Words.antt =====
-- Fixed-width words: casts by `%`, bytes in both orders, single bits by place value.
use Prim.Native.Nat.{ℕ, zero, suc, ◌+◌, ◌-◌, ◌*◌, ◌/◌, ◌%◌, ◌^◌, ◌<◌}
use mathlib.Core.Path.{◌≡◌}
use mathlib.Core.Bool.{Bool}
use mathlib.Core.List.{List, [], ◌∷◌}
use native.Mathlib.Omega.{arith}
use rtic_ecmaster.Base.Tests.{◌==◌, if◌then◌else◌}
use rtic_ecmaster.Base.Lists.{get_or, All}

abbrev pub u8 : ℕ → ℕ
u8 n = n % 256

abbrev pub u16 : ℕ → ℕ
u16 n = n % 65536

abbrev pub u32 : ℕ → ℕ
u32 n = n % 4294967296

abbrev pub u64 : ℕ → ℕ
u64 n = n % 18446744073709551616

-- `x & (1 << k) != 0`
abbrev pub test_bit : ℕ → ℕ → Bool
test_bit x k = x / 2 ^ k % 2 == 1

-- `x | (1 << k)`
abbrev pub set_bit : ℕ → ℕ → ℕ
set_bit x k = if test_bit x k then x else x + 2 ^ k

-- `x & !(1 << k)`
abbrev pub clear_bit : ℕ → ℕ → ℕ
clear_bit x k = if test_bit x k then x - 2 ^ k else x

-- `x & ((1 << k) - 1)`
abbrev pub low_bits : ℕ → ℕ → ℕ
low_bits x k = x % 2 ^ k

-- A byte of a slice, at an index that the source has checked.
abbrev pub byte_at : List ℕ → ℕ → ℕ
byte_at xs i = get_or xs i 0

-- `v.to_le_bytes()` of a `u16`, a `u32` and a `u64`.
abbrev pub le16 : ℕ → List ℕ
le16 v = v % 256 ∷ v / 256 % 256 ∷ []

abbrev pub le32 : ℕ → List ℕ
le32 v = v % 256 ∷ v / 256 % 256 ∷ v / 65536 % 256 ∷ v / 16777216 % 256 ∷ []

abbrev pub le64 : ℕ → List ℕ
le64 v =
    v % 256
    ∷ v / 256 % 256
    ∷ v / 65536 % 256
    ∷ v / 16777216 % 256
    ∷ v / 4294967296 % 256
    ∷ v / 1099511627776 % 256
    ∷ v / 281474976710656 % 256
    ∷ v / 72057594037927936 % 256
    ∷ []

-- `v.to_be_bytes()` of a `u16`.
abbrev pub be16 : ℕ → List ℕ
be16 v = v / 256 % 256 ∷ v % 256 ∷ []

-- `u16::from_le_bytes([xs[i], xs[i + 1]])`
abbrev pub read_le16 : List ℕ → ℕ → ℕ
read_le16 xs i = byte_at xs i + 256 * byte_at xs (i + 1)

-- `u16::from_be_bytes([xs[i], xs[i + 1]])`
abbrev pub read_be16 : List ℕ → ℕ → ℕ
read_be16 xs i = 256 * byte_at xs i + byte_at xs (i + 1)

-- `u32::from_le_bytes` of the four bytes from `i`.
abbrev pub read_le32 : List ℕ → ℕ → ℕ
read_le32 xs i =
    byte_at xs i
    + 256 * byte_at xs (i + 1)
    + 65536 * byte_at xs (i + 2)
    + 16777216 * byte_at xs (i + 3)

-- `u64::from_le_bytes` of the eight bytes from `i`.
abbrev pub read_le64 : List ℕ → ℕ → ℕ
read_le64 xs i = read_le32 xs i + 4294967296 * read_le32 xs (i + 4)

pub le16_value : (v : ℕ) → v < 65536 → v % 256 + 256 * (v / 256 % 256) ≡ v
le16_value v h = omega arith

pub le32_value :
    (v : ℕ)
    → v < 4294967296
    → v % 256 + 256 * (v / 256 % 256) + 65536 * (v / 65536 % 256) + 16777216 * (v / 16777216 % 256)
      ≡ v
le32_value v h = omega arith

pub byte_at-lt : (xs : List ℕ) (i : ℕ) → All (λ b. b < 256) xs → byte_at xs i < 256
byte_at-lt [] i h = omega arith
byte_at-lt (x ∷ xs) zero h = h.0
byte_at-lt (x ∷ xs) (suc i) h = byte_at-lt xs i h.1

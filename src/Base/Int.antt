-- ===== src/Base/Int.antt =====
-- Signed integers over the native numbers, under the library's names.
use Prim.Native.Nat.{ℕ, suc, ◌-◌}
use rtic_ecmaster.Base.Tests.{◌==◌, if◌then◌else◌}

-- `negsuc n` is -(n + 1).
pub data ℤ : Type 0 where
  pos : ℕ → ℤ
  negsuc : ℕ → ℤ

-- `unsigned_abs`
abbrev pub abs : ℤ → ℕ
abs (pos n) = n
abs (negsuc n) = suc n

-- `-n`
abbrev pub neg_ℕ : ℕ → ℤ
neg_ℕ n = if n == 0 then pos 0 else negsuc (n - 1)

-- ===== src/Base/Checked.antt =====
-- Chains of checked accesses: `none` is the panic of an index or a range out of bounds.
use Prim.Native.Nat.{ℕ, ◌+◌, ◌*◌}
use mathlib.Core.Option.{Option, none, some}
use mathlib.Core.List.{List}
use rtic_ecmaster.Base.Lists.{get_elem?}

infixl 5 ◌>>=◌
abbrev pub ◌>>=◌ {ℓ κ} : {A : Type ℓ} {B : Type κ} → Option A → (A → Option B) → Option B
none >>= f = none
some a >>= f = f a

-- `u16::from_le_bytes([xs[i], xs[i + 1]])` with its two bounds checks.
unfoldable pub checked_le16 : List ℕ → ℕ → Option ℕ
checked_le16 xs i = do lo ← get_elem? xs i; hi ← get_elem? xs (i + 1); some (lo + 256 * hi)

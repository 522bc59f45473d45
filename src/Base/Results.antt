-- ===== src/Base/Results.antt =====
-- What a fallible call gives: a value, an error of `ecrt.rs`, or a panic of the checked build.
use Prim.Native.Nat.{ℕ}
use mathlib.Core.Option.{Option, none, some}

-- `EcError` of src/ethercat/ecrt.rs.
pub data EcError : Type 0 where
  timeout working_counter_mismatch frame_too_short sii_error sii_timeout : EcError
  too_many_slaves transport no_such_slave coe_unsupported : EcError
  mailbox_timeout mailbox_protocol : EcError
  state_change : ℕ → EcError
  sdo_abort : ℕ → EcError

pub data Outcome {ℓ} (A : Type ℓ) : Type ℓ where
  ok : A → Outcome A
  err : EcError → Outcome A
  panic : Outcome A

-- A checked access: `none` is an index or a range out of bounds.
abbrev pub or_panic {ℓ} : {A : Type ℓ} → Option A → Outcome A
or_panic (some a) = ok a
or_panic none = panic

-- `o.ok_or(e)`
abbrev pub ok_or {ℓ} : {A : Type ℓ} → Option A → EcError → Outcome A
ok_or (some a) e = ok a
ok_or none e = err e

-- ===== src/Base.antt =====
-- The names that the other modules share: tests, lists, words and outcomes, and the libraries'.
pub mod Tests
pub mod Lists
pub mod Words
pub mod Results
pub mod Checked
pub mod Copy
pub mod Bits
pub mod Xor
pub mod Int
pub use Tests.*
pub use Lists.*
pub use Words.*
pub use Results.*
pub use Copy.*
pub use Prim.Native.Nat.{ℕ, zero, suc, ◌+◌, ◌-◌, ◌*◌, ◌/◌, ◌%◌, ◌^◌, ◌≤◌, ◌<◌, min, max}
pub use mathlib.Core.Path.{◌≡◌, refl, sym, ap, ap₂, ◌∙◌}
pub use mathlib.Core.Logic.{◌≢◌, ◌↔◌, ◌⊎◌, inl, inr}
pub use mathlib.Core.Bool.{Bool, true, false, not, ◌&&◌, ◌||◌}
pub use mathlib.Core.Option.{Option, none, some}
pub use mathlib.Core.List.{List, [], ◌∷◌, ◌++◌, map, append_assoc, append-nil}
pub use native.Mathlib.Omega.{arith}

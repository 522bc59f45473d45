-- ===== src/CycleTimer.antt =====
-- src/board/cycle_timer.rs: the period of the cyclic timer. Its registers are left out.
pub mod Rates
use rtic_ecmaster.Base.{ℕ, ◌+◌, ◌-◌, ◌*◌, ◌/◌, ◌^◌, min, max, u32}

abbrev pub perclk_hz : ℕ
perclk_hz = 24000000

-- `saturating_mul` of two `u64`, and the cast to `u32`.
unfoldable pub load_value : ℕ → ℕ
load_value cycle_ns = u32 (max (min (cycle_ns * perclk_hz) (2 ^ 64 - 1) / 1000000000) 1 - 1)

unfoldable pub actual_hz : ℕ → ℕ
actual_hz load = perclk_hz / (load + 1)

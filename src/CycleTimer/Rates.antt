-- ===== src/CycleTimer/Rates.antt =====
-- The rate that the timer runs at, against the rate that is asked for.
use mathlib.Core.Path.{subst}
use rtic_ecmaster.Base.{
  ℕ, zero, suc, ◌+◌, ◌*◌, ◌/◌, ◌≤◌, ◌<◌, ◌≡◌, refl, arith, Bool, true, ◌&&◌, ◌||◌, leb, ltb, some,
}
use rtic_ecmaster.Console.{period}
use rtic_ecmaster.Cli.{rate_min_hz, rate_max_hz}
use rtic_ecmaster.CycleTimer.{perclk_hz, load_value, actual_hz}

-- The timer counts `ticks` periods of its clock: `perclk_hz / ticks` is its exact rate.
abbrev pub ticks : ℕ → ℕ
ticks hz = load_value (1000000000 / hz) + 1

near_ticks : ℕ → ℕ → Bool
near_ticks hz n =
    leb (hz * n) perclk_hz
    && ltb perclk_hz ((hz + 3) * n)
    && leb hz (perclk_hz / n)
    && leb (perclk_hz / n) (hz + 2)

near : ℕ → Bool
unfolding load_value near_ticks
near hz = ltb hz 50 || near_ticks hz (ticks hz)

all_near : ℕ → Bool
all_near zero = true
all_near (suc n) = near n && all_near n

all_near_sound : (n hz : ℕ) → all_near n ≡ true → hz < n → near hz ≡ true
unfolding all_near
all_near_sound zero hz e h = absurd (omega arith)
all_near_sound (suc n) hz e h = ground (arith, all_near_sound n hz)

rates_near : all_near 8001 ≡ true
unfolding all_near near near_ticks load_value
rates_near = refl

-- The timer that counts `n` periods is as fast as asked for, and not 3 Hz faster.
abbrev pub Near : ℕ → ℕ → Type 0
Near hz n =
    (hz * n ≤ perclk_hz)
    × (perclk_hz < (hz + 3) * n)
    × (hz ≤ perclk_hz / n)
    × (perclk_hz / n ≤ hz + 2)

near_ticks-Near : (hz n : ℕ) → (ltb hz 50 || near_ticks hz n) ≡ true → 50 ≤ hz → Near hz n
unfolding near_ticks
near_ticks-Near hz n e h = bounds (hz * n) ((hz + 3) * n) (perclk_hz / n) e
  where
    bounds :
        (low high rate : ℕ)
        → (ltb hz 50
            || (leb low perclk_hz && ltb perclk_hz high && leb hz rate && leb rate (hz + 2)))
          ≡ true
        → (low ≤ perclk_hz) × (perclk_hz < high) × (hz ≤ rate) × (rate ≤ hz + 2)
    bounds low high rate e = ground arith

near-Near : (hz : ℕ) → near hz ≡ true → 50 ≤ hz → Near hz (ticks hz)
unfolding near
near-Near hz e h = near_ticks-Near hz (ticks hz) e h

-- For every rate that `start` accepts, the exact rate of the timer, its clock of 24 MHz over the
-- ticks that it counts, is at least the rate asked for and less than 3 Hz above it, and the whole
-- number of Hz that it reports is at most 2 above it.
pub actual_hz-load_value :
    (configured_ns hz cycle_ns : ℕ)
    → rate_min_hz ≤ hz
    → hz ≤ rate_max_hz
    → period configured_ns (some hz) ≡ some cycle_ns
    → let ticked = load_value cycle_ns + 1 in
      (hz * ticked ≤ perclk_hz)
      × (perclk_hz < (hz + 3) * ticked)
      × (hz ≤ actual_hz (load_value cycle_ns))
      × (actual_hz (load_value cycle_ns) ≤ hz + 2)
unfolding actual_hz
actual_hz-load_value configured_ns zero cycle_ns low high e = absurd (omega arith)
actual_hz-load_value configured_ns (suc h) cycle_ns low high e =
    let ns : 1000000000 / suc h ≡ cycle_ns = cc in
    subst (λ n. Near (suc h) (load_value n + 1)) ns
      (near-Near (suc h) (all_near_sound 8001 (suc h) rates_near (omega arith)) low)

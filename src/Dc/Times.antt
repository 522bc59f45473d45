-- ===== src/Dc/Times.antt =====
-- The arithmetic of the clocks.
use rtic_ecmaster.Base.{
  ℕ, ◌+◌, ◌-◌, ◌*◌, ◌/◌, ◌%◌, ◌^◌, ◌≤◌, ◌<◌, max, ◌≡◌, arith, List, [], ◌∷◌, u32, u64, ltb, leb,
  if◌then◌else◌,
}
use native.Mathlib.Nat.{mod-add-div', mod-lt}
use rtic_ecmaster.Config.{DcCfg}
use rtic_ecmaster.Dc.{start_margin_ns, max_delay_ns, cyclic_start, propagation_delay, new_offset}

-- A follower whose offset register gets the new offset shows the reference's time: the clock shows
-- its local time plus the offset, both modulo 2^64.
pub new_offset-aligns :
    (ref_sys fol_local old_off : ℕ)
    → ref_sys < 2 ^ 64
    → u64 (fol_local + new_offset ref_sys (u64 (fol_local + old_off)) old_off) ≡ ref_sys
new_offset-aligns ref_sys fol_local old_off h = omega arith

-- On a line whose cable takes `d` ns one way, up to 10 us, the measured delay is `d`: the port
-- times of the reference differ by the follower's loopback and twice the delay, whatever the four
-- 32-bit counters show and wherever they wrap.
pub propagation_delay-line :
    (ref0 fol0 loopback d : ℕ)
    → ref0 < 2 ^ 32
    → fol0 < 2 ^ 32
    → d ≤ max_delay_ns
    → loopback + 2 * d < 2 ^ 32
    → propagation_delay
        (ref0 ∷ u32 (ref0 + loopback + 2 * d) ∷ 0 ∷ 0 ∷ [])
        (fol0 ∷ u32 (fol0 + loopback) ∷ 0 ∷ 0 ∷ [])
      ≡ d
unfolding propagation_delay
propagation_delay-line ref0 fol0 loopback d h0 h1 hd hl =
    let ref_rt : u32 (u32 (ref0 + loopback + 2 * d) + 2 ^ 32 - ref0) ≡ loopback + 2 * d =
      omega arith in
    let fol_rt : u32 (u32 (fol0 + loopback) + 2 ^ 32 - fol0) ≡ loopback = omega arith in
    rw (ref_rt, fol_rt) (half loopback d hd)
  where
    half :
        (loopback d : ℕ)
        → d ≤ max_delay_ns
        → (if ltb (loopback + 2 * d) loopback
            then 0
            else if leb ((loopback + 2 * d - loopback) / 2) max_delay_ns
            then (loopback + 2 * d - loopback) / 2
            else 0)
          ≡ d
    half loopback d hd = ground arith

-- No measured delay is above 10 us.
pub propagation_delay-le :
    (ref_ports fol_ports : List ℕ) → propagation_delay ref_ports fol_ports ≤ max_delay_ns
unfolding propagation_delay
propagation_delay-le ref_ports fol_ports = ground arith

-- SYNC0 starts in the future and soon: where the 64-bit clock does not overflow, the start is more
-- than 100 ms ahead of `now`, and at most one cycle and the shift further.
pub cyclic_start-ahead :
    (cfg : DcCfg) (now : ℕ)
    → now + start_margin_ns + max cfg.sync0_cycle_ns 1 + cfg.sync0_shift_ns < 2 ^ 64
    → (now + start_margin_ns + cfg.sync0_shift_ns < cyclic_start cfg now)
      × (cyclic_start cfg now
          ≤ now + start_margin_ns + max cfg.sync0_cycle_ns 1 + cfg.sync0_shift_ns)
unfolding cyclic_start
cyclic_start-ahead cfg now h =
    let cycle : ℕ = max cfg.sync0_cycle_ns 1 in
    let target : u64 (now + start_margin_ns) ≡ now + start_margin_ns = omega arith in
    let parts : (now + start_margin_ns) % cycle + (now + start_margin_ns) / cycle * cycle
        ≡ now + start_margin_ns =
      mod-add-div' (now + start_margin_ns) cycle in
    let rest : (now + start_margin_ns) % cycle < cycle =
      mod-lt (now + start_margin_ns) (omega arith) in
    rw target (omega (arith, parts, rest), omega (arith, parts, rest))

-- ===== src/Motion/Stream.antt =====
-- Delivery of a motion stream: what underrun means, and samples with consecutive tags.
use mathlib.Core.Path.{subst}
use rtic_ecmaster.Base.{
  ℕ, zero, suc, ◌+◌, ◌-◌, ◌%◌, ◌^◌, ◌<◌, ◌≡◌, refl, ap, ◌∙◌, arith, Bool, true, false, ◌&&◌, Option,
  none, some, List, [], ◌∷◌, ◌++◌, length, ◌==◌, get_or, ltb, Bool-cases, inl, inr,
}
use mathlib.Core.Option
use rtic_ecmaster.Motion.Refine.{contents, pop_refines}
use rtic_ecmaster.Motion.{
  payload_of, MotionRing, ring_depth, pop, pop_current, discard_stale, cycle_before,
}
use rtic_ecmaster.Motion.Queue
use rtic_ecmaster.Motion.Queue.{Sample, Queue}

-- The samples are tagged for the cycles from `c` on, where the 32-bit counter wraps.
abbrev pub Consecutive : ℕ → Queue → Type 0
Consecutive c [] = Unit {0}
Consecutive c (s ∷ q) = (s.tag ≡ c % 2 ^ 32) × Consecutive (c + 1) q

stale_before : (c k : ℕ) → 0 < k → k < 2 ^ 31 → cycle_before (c % 2 ^ 32) ((c + k) % 2 ^ 32) ≡ true
stale_before c k h h' = ground arith

current_not_before : (c : ℕ) → cycle_before c c ≡ false
current_not_before c = ground arith

-- The queue after a gap of missed cycles.
pop_after_gap :
    (missed : Queue) (s : Sample) (q : Queue) (c : ℕ)
    → Consecutive c (missed ++ (s ∷ q))
    → length missed < 2 ^ 31
    → Queue.pop (missed ++ (s ∷ q)) ((c + length missed) % 2 ^ 32) ≡ (q, some s.payload)
unfolding Queue.pop Queue.fresh
pop_after_gap [] s q c h small = ground (arith, current_not_before (c % 2 ^ 32))
pop_after_gap (m ∷ missed) s q c h small =
    let same : (c + suc (length missed)) % 2 ^ 32 ≡ (c + 1 + length missed) % 2 ^ 32 =
      omega arith in
    ground (arith, stale_before c (suc (length missed)), pop_after_gap missed s q (c + 1) h.1)

-- On a ring that holds samples with consecutive 32-bit cycle tags, with fewer than 2^31 of them
-- missed, also across the wrap of the counter, `pop` drops exactly the samples of the missed cycles
-- and delivers the payload of the one tagged for this cycle; the later samples stay.
pub pop-gap :
    (r : MotionRing) (missed : Queue) (s : Sample) (q : Queue) (c : ℕ)
    → contents r ≡ missed ++ (s ∷ q)
    → Consecutive c (missed ++ (s ∷ q))
    → length missed < 2 ^ 31
    → let now = (c + length missed) % 2 ^ 32 in
      ◌≡◌ {A = Queue × Option (List ℕ)}
        (contents (pop r now).0, Option.map (payload_of (pop r now).0) (pop r now).1)
        (q, some s.payload)
pop-gap r missed s q c e h small =
    let now = (c + length missed) % 2 ^ 32 in
    pop_refines r now ∙ (ap (λ x. Queue.pop x now) e ∙ pop_after_gap missed s q c h small)

discard_stale-started :
    (rounds : ℕ) (r : MotionRing) (c : ℕ) → (discard_stale rounds r c).started ≡ r.started
unfolding discard_stale
discard_stale-started zero r c = refl
discard_stale-started (suc rounds) r c = ground (
  arith,
  discard_stale-started rounds (record r { head = (r.head + 1) % ring_depth; len = r.len - 1 }) c,
)

abbrev pub Flagged : Bool → MotionRing → Option ℕ → Type 0
Flagged started r none = r.underrun ≡ (started && (r.len == 0))
Flagged started r (some slot) = r.underrun ≡ false

pop_current-Flagged :
    (r : MotionRing) (c : ℕ) → Flagged r.started (pop_current r c).0 (pop_current r c).1
unfolding pop_current
pop_current-Flagged r c = elim (Bool-cases (ltb 0 r.len && (get_or r.tag r.head 0 == c))) [
  | inl t ↦ rw t refl
  | inr t ↦ rw t refl
]

-- A `pop` that delivers a sample clears the underrun flag; one that delivers none sets it exactly
-- if the stream has started and no sample is left.
pub pop-Flagged : (r : MotionRing) (c : ℕ) → Flagged r.started (pop r c).0 (pop r c).1
unfolding pop
pop-Flagged r c =
    let r' = discard_stale r.len r c in
    subst (λ b. Flagged b (pop_current r' c).0 (pop_current r' c).1)
      (discard_stale-started r.len r c) (pop_current-Flagged r' c)

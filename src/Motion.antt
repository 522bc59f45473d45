-- ===== src/Motion.antt =====
-- src/hal/motion_buffer.rs: the look-ahead ring of motion samples, each tagged with the absolute
-- cycle index on which it is applied.
pub mod Queue
pub mod Valid
pub mod Refine
pub mod Stream
use rtic_ecmaster.Base.{
  ℕ, zero, suc, ◌+◌, ◌-◌, ◌%◌, ◌^◌, min, Bool, true, false, ◌&&◌, Option, none, some, List, ◌++◌,
  ltb, leb, ◌==◌, if◌then◌else◌, length, get_or, set, take, drop, replicate,
}

abbrev pub ring_depth : ℕ
ring_depth = 32

abbrev pub sample_max : ℕ
sample_max = 64

-- `MotionRing`; a slot of `slots` is one `[u8; MOTION_SAMPLE_MAX]` of the field `data`.
pub record MotionRing : Type 0 where
  pub slots : List (List ℕ)
  pub tag : List ℕ
  pub head : ℕ
  pub len : ℕ
  pub sample_len : ℕ
  pub underrun : Bool
  pub started : Bool

-- `MotionRing::new`
unfoldable pub new : ℕ → MotionRing
new sample_len = record {
  slots = replicate ring_depth (replicate sample_max 0);
  tag = replicate ring_depth 0;
  head = 0;
  len = 0;
  sample_len = if ltb sample_max sample_len then sample_max else sample_len;
  underrun = false;
  started = false;
}

unfoldable pub active : MotionRing → Bool
active r = ltb 0 r.sample_len

-- The slot bytes behind a `push`: the payload's first bytes, then zeros up to `sample_len`.
abbrev pub filled : ℕ → List ℕ → List ℕ → List ℕ
filled sample_len payload old =
    let n = min sample_len (length payload) in
    take n payload ++ (replicate (sample_len - n) 0 ++ drop sample_len old)

unfoldable pub push : MotionRing → ℕ → List ℕ → MotionRing × Bool
push r t payload =
    let slot = (r.head + r.len) % ring_depth in
    let pushed = record r {
      slots =
          set r.slots slot
            (filled r.sample_len payload (get_or r.slots slot (replicate sample_max 0)));
      tag = set r.tag slot t;
      len = r.len + 1;
      started = true;
    } in
    if leb ring_depth r.len then (r, false) else (pushed, true)

-- `(b.wrapping_sub(a) as i32) > 0`
abbrev pub cycle_before : ℕ → ℕ → Bool
cycle_before a b = let d = (b + 2 ^ 32 - a) % 2 ^ 32 in ltb 0 d && ltb d (2 ^ 31)

-- The `while` loop of `pop`, by recursion on `len`, which falls by one in each round.
unfoldable pub discard_stale : ℕ → MotionRing → ℕ → MotionRing
discard_stale zero r current = r
discard_stale (suc rounds) r current =
    let rest =
      discard_stale rounds (record r { head = (r.head + 1) % ring_depth; len = r.len - 1 })
        current in
    if cycle_before (get_or r.tag r.head 0) current then rest else r

-- `pop` behind its loop.
unfoldable pub pop_current : MotionRing → ℕ → MotionRing × Option ℕ
pop_current r current =
    if ltb 0 r.len && (get_or r.tag r.head 0 == current)
    then (
      record r { head = (r.head + 1) % ring_depth; len = r.len - 1; underrun = false },
      some r.head,
    )
    else (record r { underrun = r.started && (r.len == 0) }, none)

unfoldable pub pop : MotionRing → ℕ → MotionRing × Option ℕ
pop r current = pop_current (discard_stale r.len r current) current

-- `payload`
unfoldable pub payload_of : MotionRing → ℕ → List ℕ
payload_of r slot = take r.sample_len (get_or r.slots slot (replicate sample_max 0))

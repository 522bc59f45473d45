-- ===== src/Motion/Valid.antt =====
-- The representation invariant of `MotionRing`: its indices and slots stay in range.
use rtic_ecmaster.Base.{
  ℕ, zero, suc, ◌+◌, ◌-◌, ◌%◌, ◌≤◌, ◌<◌, ◌≡◌, arith, false, List, length, length-set, get_or,
  replicate,
}
use rtic_ecmaster.Motion.{
  MotionRing, ring_depth, sample_max, new, push, discard_stale, pop_current, pop, filled,
}

pub record IsValid (r : MotionRing) : Type 0 where
  pub slot_count : length r.slots ≡ ring_depth
  pub tag_count : length r.tag ≡ ring_depth
  pub head_in : r.head < ring_depth
  pub len_in : r.len ≤ ring_depth
  pub sample_in : r.sample_len ≤ sample_max
  pub empty_start : r.started ≡ false → r.len ≡ 0

pub new-IsValid : (n : ℕ) → IsValid (new n)
unfolding new
new-IsValid n = ground arith

-- `push` of any payload keeps the ring valid: its indices, its fill and its slots stay in range.
pub push-IsValid : {r : MotionRing} (t : ℕ) (p : List ℕ) → IsValid r → IsValid (push r t p).0
unfolding push
push-IsValid {r} t p v =
    let slot = (r.head + r.len) % ring_depth in
    ground (
      arith,
      length-set r.tag slot t,
      length-set r.slots slot
          (filled r.sample_len p (get_or r.slots slot (replicate sample_max 0))),
    )

discard_stale-IsValid :
    (rounds : ℕ) (r : MotionRing) (c : ℕ)
    → rounds ≤ r.len
    → IsValid r
    → IsValid (discard_stale rounds r c)
unfolding discard_stale
discard_stale-IsValid zero r c h v = v
discard_stale-IsValid (suc rounds) r c h v = ground (
  arith,
  discard_stale-IsValid rounds (record r { head = (r.head + 1) % ring_depth; len = r.len - 1 }) c,
)

pop_current-IsValid : {r : MotionRing} (c : ℕ) → IsValid r → IsValid (pop_current r c).0
unfolding pop_current
pop_current-IsValid c v = ground arith

-- `pop` on any cycle keeps the ring valid.
pub pop-IsValid : {r : MotionRing} (c : ℕ) → IsValid r → IsValid (pop r c).0
unfolding pop
pop-IsValid {r} c v = pop_current-IsValid c (discard_stale-IsValid r.len r c (omega arith) v)

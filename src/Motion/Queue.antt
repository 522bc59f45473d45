-- ===== src/Motion/Queue.antt =====
-- The contract of the motion ring: a queue of tagged payloads, oldest first.
use rtic_ecmaster.Base.{
  ℕ, ◌-◌, min, Bool, true, false, Option, none, some, List, [], ◌∷◌, ◌++◌, leb, ◌==◌, if◌then◌else◌,
  length, take, replicate,
}
use rtic_ecmaster.Motion.{cycle_before, ring_depth}

pub record Sample : Type 0 where
  pub tag : ℕ
  pub payload : List ℕ

abbrev pub Queue : Type 0
Queue = List Sample

-- A payload brought to the sample length: cut, or filled up with zeros.
abbrev pub fit : ℕ → List ℕ → List ℕ
fit sample_len payload =
    let n = min sample_len (length payload) in take n payload ++ replicate (sample_len - n) 0

-- A full queue drops the sample.
unfoldable pub push : ℕ → Queue → ℕ → List ℕ → Queue × Bool
push sample_len q t payload =
    if leb ring_depth (length q)
    then (q, false)
    else (q ++ (record { tag = t; payload = fit sample_len payload } ∷ []), true)

-- The queue without its leading samples of passed cycles.
unfoldable pub fresh : Queue → ℕ → Queue
fresh [] current = []
fresh (s ∷ q) current =
    let rest = fresh q current in if cycle_before s.tag current then rest else s ∷ q

abbrev pub take_current : Queue → ℕ → Queue × Option (List ℕ)
take_current [] current = ([], none)
take_current (s ∷ q) current = if s.tag == current then (q, some s.payload) else (s ∷ q, none)

-- The oldest fresh sample, if it is for this very cycle.
unfoldable pub pop : Queue → ℕ → Queue × Option (List ℕ)
pop q current = take_current (fresh q current) current

-- ===== src/Examples/Rings.antt =====
-- The motion ring on concrete samples.
use mathlib.Core.Option
use rtic_ecmaster.Base.{◌≡◌, ◌^◌, ◌-◌, refl, [], ◌∷◌}
use rtic_ecmaster.Motion.{MotionRing, new, push, pop, payload_of}
use rtic_ecmaster.Motion.Queue
use rtic_ecmaster.Motion.Queue.{Sample, Queue}
use rtic_ecmaster.Motion.Valid.{new-IsValid}
use rtic_ecmaster.Motion.Refine.{contents, push_refines, pop_refines}

abbrev empty : MotionRing
empty = new 2

-- Tags across the wrap of the counter.
abbrev loaded : MotionRing
loaded = (push (push empty (2 ^ 32 - 1) (5 ∷ 6 ∷ [])).0 0 (7 ∷ [])).0

push_refines_example :
    (contents (push empty 3 (1 ∷ [])).0, (push empty 3 (1 ∷ [])).1)
    ≡ Queue.push empty.sample_len (contents empty) 3 (1 ∷ [])
push_refines_example = push_refines 3 (1 ∷ []) (new-IsValid 2)

pop_refines_example :
    (contents (pop loaded 0).0, Option.map (payload_of (pop loaded 0).0) (pop loaded 0).1)
    ≡ Queue.pop (contents loaded) 0
pop_refines_example = pop_refines loaded 0

abbrev missed_sample : Sample
missed_sample = record { tag = 2 ^ 32 - 1; payload = 5 ∷ 6 ∷ [] }

abbrev due_sample : Sample
due_sample = record { tag = 0; payload = 7 ∷ 0 ∷ [] }

loaded-contents : contents loaded ≡ missed_sample ∷ due_sample ∷ []
unfolding push new
loaded-contents = refl

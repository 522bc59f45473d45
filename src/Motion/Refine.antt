-- ===== src/Motion/Refine.antt =====
-- A valid ring behaves as the queue of the samples that it holds.
use mathlib.Core.Option
use native.Mathlib.Decide.{dec_lt}
use rtic_ecmaster.Base.{
  ℕ, zero, suc, ◌+◌, ◌-◌, ◌%◌, ◌<◌, min, ◌≡◌, ◌≢◌, refl, sym, ap, ◌∙◌, arith, List, [], ◌∷◌, ◌++◌,
  length, length-replicate, length-take, length-append, get_or, replicate, take, drop, take-append,
  get_or-set_self, get_or-set_ne, set, append_assoc, Bool-cases, inl, inr,
}
use rtic_ecmaster.Motion.{
  MotionRing, ring_depth, sample_max, push, discard_stale, pop_current, pop, filled, payload_of,
  cycle_before,
}
use rtic_ecmaster.Motion.Queue
use rtic_ecmaster.Motion.Queue.{Sample, Queue, fit}
use rtic_ecmaster.Motion.Valid.{IsValid}

-- The `n` samples from slot `h` on, going round at the ring's depth.
module _ (slots : List (List ℕ)) (tags : List ℕ) (sample_len : ℕ) where
  abbrev pub sample_at : ℕ → Sample
  sample_at h = record {
    tag = get_or tags h 0;
    payload = take sample_len (get_or slots h (replicate sample_max 0));
  }

  abbrev pub samples_from : ℕ → ℕ → Queue
  samples_from h zero = []
  samples_from h (suc n) = sample_at h ∷ samples_from ((h + 1) % ring_depth) n

  length-samples_from : (h n : ℕ) → length (samples_from h n) ≡ n
  length-samples_from h zero = refl
  length-samples_from h (suc n) = ap suc (length-samples_from ((h + 1) % ring_depth) n)

  samples_from_pos :
      (h n : ℕ)
      → 0 < n
      → samples_from h n ≡ sample_at h ∷ samples_from ((h + 1) % ring_depth) (n - 1)
  samples_from_pos h zero p = absurd (omega arith)
  samples_from_pos h (suc n) p =
      ap (λ k. sample_at h ∷ samples_from ((h + 1) % ring_depth) k) (omega arith)

  samples_from_zero : (h n : ℕ) → n ≡ 0 → samples_from h n ≡ []
  samples_from_zero h zero p = refl
  samples_from_zero h (suc n) p = absurd (omega arith)

abbrev pub contents : MotionRing → Queue
contents r = samples_from r.slots r.tag r.sample_len r.head r.len

pub length-contents : (r : MotionRing) → length (contents r) ≡ r.len
length-contents r = length-samples_from r.slots r.tag r.sample_len r.head r.len

-- What `push` stores reads back as the payload brought to the sample length.
take-filled :
    (sample_len : ℕ) (payload old : List ℕ)
    → take sample_len (filled sample_len payload old) ≡ fit sample_len payload
take-filled sl payload old =
    let n = min sl (length payload) in
    ap (take sl) (sym (append_assoc (take n payload) (replicate (sl - n) 0) (drop sl old)))
    ∙ ap (λ k. take k (fit sl payload ++ drop sl old)) size
    ∙ take-append (fit sl payload) (drop sl old)
  where
    size : sl ≡ length (fit sl payload)
    size = omega (
      arith,
      length-append (take (min sl (length payload)) payload)
          (replicate (sl - min sl (length payload)) 0),
      length-take (min sl (length payload)) payload,
      length-replicate {A = ℕ} (sl - min sl (length payload)) 0,
    )

-- A write just past the samples adds one sample at the end.
samples_from-set :
    (slots : List (List ℕ)) (tags : List ℕ) (sl t : ℕ) (bytes : List ℕ) (n h i : ℕ)
    → length slots ≡ ring_depth
    → length tags ≡ ring_depth
    → h < ring_depth
    → n < ring_depth
    → i ≡ (h + n) % ring_depth
    → samples_from (set slots i bytes) (set tags i t) sl h (suc n)
      ≡ samples_from slots tags sl h n ++ (record { tag = t; payload = take sl bytes } ∷ [])
samples_from-set slots tags sl t bytes zero h i es et hh hn e =
    let here : i ≡ h = omega arith in
    rw (
      here,
      get_or-set_self tags h t 0 (omega arith),
      get_or-set_self slots h bytes (replicate sample_max 0) (omega arith),
    )
samples_from-set slots tags sl t bytes (suc n) h i es et hh hn e =
    let apart : i ≢ h = omega arith in
    rw
      (
        get_or-set_ne tags i h t 0 apart,
        get_or-set_ne slots i h bytes (replicate sample_max 0) apart,
      )
      (ap (λ q. sample_at slots tags sl h ∷ q)
        (samples_from-set slots tags sl t bytes n ((h + 1) % ring_depth) i es et (omega arith)
          (omega arith) (omega arith)))

-- `push` gives the answer of the queue, and leaves the ring holding its queue.
pub push_refines :
    {r : MotionRing} (t : ℕ) (p : List ℕ)
    → IsValid r
    → (contents (push r t p).0, (push r t p).1) ≡ Queue.push r.sample_len (contents r) t p
unfolding push Queue.push
push_refines {r} t p v =
    let slot = (r.head + r.len) % ring_depth in
    let old = get_or r.slots slot (replicate sample_max 0) in
    ground (
      arith,
      length-contents r,
      take-filled r.sample_len p old,
      samples_from-set r.slots r.tag r.sample_len t (filled r.sample_len p old) r.len r.head slot,
    )

-- `contents` matches on `suc`, the code tests `len > 0`.
contents_of_pos :
    (r : MotionRing)
    → 0 < r.len
    → contents r
      ≡ sample_at r.slots r.tag r.sample_len r.head
        ∷ contents (record r { head = (r.head + 1) % ring_depth; len = r.len - 1 })
contents_of_pos r h = samples_from_pos r.slots r.tag r.sample_len r.head r.len h

contents_of_zero : (r : MotionRing) → r.len ≡ 0 → contents r ≡ []
contents_of_zero r h = samples_from_zero r.slots r.tag r.sample_len r.head r.len h

discard_stale_refines :
    (rounds : ℕ) (r : MotionRing) (c : ℕ)
    → rounds ≡ r.len
    → contents (discard_stale rounds r c) ≡ Queue.fresh (contents r) c
unfolding discard_stale Queue.fresh
discard_stale_refines zero r c e = rw (contents_of_zero r (sym e))
discard_stale_refines (suc rounds) r c e =
    let r' = record r { head = (r.head + 1) % ring_depth; len = r.len - 1 } in
    rw (contents_of_pos r (omega arith))
      (elim (Bool-cases (cycle_before (get_or r.tag r.head 0) c)) [
        | inl stale ↦ rw stale (discard_stale_refines rounds r' c (omega arith))
        | inr now ↦ rw now (contents_of_pos r (omega arith))
      ])

pop_current_refines :
    (r : MotionRing) (c : ℕ)
    → (
      contents (pop_current r c).0,
      Option.map (payload_of (pop_current r c).0) (pop_current r c).1,
    )
      ≡ Queue.take_current (contents r) c
unfolding pop_current payload_of
pop_current_refines r c = elim (dec_lt 0 r.len) [
  | yes p ↦ rw (contents_of_pos r p) (ground (arith, contents_of_pos r p))
  | no p ↦ rw (contents_of_zero r (omega arith)) (ground (arith, contents_of_zero r (omega arith)))
]

-- `pop` with the payload of its slot gives what the queue gives, and leaves the ring holding its
-- queue.
pub pop_refines :
    (r : MotionRing) (c : ℕ)
    → (contents (pop r c).0, Option.map (payload_of (pop r c).0) (pop r c).1)
      ≡ Queue.pop (contents r) c
unfolding pop Queue.pop
pop_refines r c =
    pop_current_refines (discard_stale r.len r c) c
    ∙ ap (λ q. Queue.take_current q c) (discard_stale_refines r.len r c refl)

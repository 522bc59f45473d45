-- ===== src/Domain/Image.antt =====
-- What `apply_reply` does to the image, byte by byte.
use rtic_ecmaster.Base.{
  ℕ, ◌+◌, ◌-◌, ◌≤◌, ◌<◌, min, ◌≡◌, refl, ◌∙◌, ◌≢◌, ◌↔◌, inl, inr, arith, Bool, false, ◌&&◌, ◌||◌,
  List, [], ◌∷◌, ltb, leb, if◌then◌else◌, length, drop, slice, length-overwrite,
  get_or-overwrite_in, get_or-overwrite_out, byte_at, Bool-cases, length-take, length-drop,
  get_or-take, get_or-drop,
}
use rtic_ecmaster.Datagram.{Reply}
use rtic_ecmaster.Domain.{EcDomain, complete, copy_range, copy_ranges, apply_reply}

-- Whether a byte belongs to an input range, cut to the live image, that the reply covers.
unfoldable pub in_range : ℕ → ℕ → ℕ → ℕ → ℕ → Bool
in_range start n len size i =
    let end = min (start + n) len in leb start i && (ltb i end && leb end size)

unfoldable pub is_input : List (ℕ × ℕ) → ℕ → ℕ → ℕ → Bool
is_input [] len size i = false
is_input ((start, n) ∷ ranges) len size i =
    in_range start n len size i || is_input ranges len size i

byte_at-slice :
    (from to : ℕ) (xs : List ℕ) (j i : ℕ)
    → i ≡ from + j
    → i < to
    → byte_at (slice from to xs) j ≡ byte_at xs i
byte_at-slice from to xs j i e h =
    get_or-take (to - from) (drop from xs) j 0 (omega arith) ∙ get_or-drop from xs j i 0 e

length-slice :
    (from to : ℕ) (xs : List ℕ) → from ≤ to → to ≤ length xs → length (slice from to xs) ≡ to - from
length-slice from to xs h h' =
    omega (arith, length-take (to - from) (drop from xs), length-drop from xs)

length-copy_range :
    (start n len : ℕ) (reply image : List ℕ)
    → length (copy_range start n len reply image) ≡ length image
unfolding copy_range
length-copy_range start n len reply image =
    let end = min (start + n) len in
    elim (Bool-cases (ltb start end && leb end (length reply))) [
      | inl t ↦ rw t (length-overwrite image start (slice start end reply))
      | inr t ↦ rw t refl
    ]

copy_range_lem :
    (start n len : ℕ) (reply image : List ℕ) (i : ℕ)
    → i < length image
    → byte_at (copy_range start n len reply image) i
      ≡ (if in_range start n len (length reply) i then byte_at reply i else byte_at image i)
unfolding copy_range in_range
copy_range_lem start n len reply image i h =
    let end = min (start + n) len in
    let src = slice start end reply in
    ground (
      arith,
      length-slice start end reply,
      byte_at-slice start end reply (i - start) i,
      get_or-overwrite_in image start src i (i - start) 0,
      get_or-overwrite_out image start src i 0,
    )

pub length-copy_ranges :
    (ranges : List (ℕ × ℕ)) (len : ℕ) (reply image : List ℕ)
    → length (copy_ranges ranges len reply image) ≡ length image
unfolding copy_ranges
length-copy_ranges [] len reply image = refl
length-copy_ranges ((start, n) ∷ ranges) len reply image =
    length-copy_ranges ranges len reply (copy_range start n len reply image)
    ∙ length-copy_range start n len reply image

copy_ranges_lem :
    (ranges : List (ℕ × ℕ)) (len : ℕ) (reply image : List ℕ) (i : ℕ)
    → i < length image
    → byte_at (copy_ranges ranges len reply image) i
      ≡ (if is_input ranges len (length reply) i then byte_at reply i else byte_at image i)
unfolding copy_ranges is_input
copy_ranges_lem [] len reply image i h = refl
copy_ranges_lem ((start, n) ∷ ranges) len reply image i h = ground (
  arith,
  length-copy_range start n len reply image,
  copy_range_lem start n len reply image i,
  copy_ranges_lem ranges len reply (copy_range start n len reply image) i,
)

-- A byte of the image is taken from the reply exactly if an input range that the reply covers
-- holds it; every other byte, the application's outputs among them, and the image's length stay.
pub image-apply_reply :
    (d : EcDomain) (reply : Reply) (i : ℕ)
    → i < length d.image
    → (byte_at (apply_reply d reply).0.image i ≡ (
        if is_input d.input_ranges d.len (length reply.payload) i
        then byte_at reply.payload i
        else byte_at d.image i))
      × (length (apply_reply d reply).0.image ≡ length d.image)
unfolding apply_reply
image-apply_reply d reply i h = (
  copy_ranges_lem d.input_ranges d.len reply.payload d.image i h,
  length-copy_ranges d.input_ranges d.len reply.payload d.image,
)

-- The health of a cycle: complete exactly if the counter is the expected one and not 0.
pub apply_reply-complete :
    (d : EcDomain) (reply : Reply)
    → ((apply_reply d reply).1 ≡ complete)
      ↔ ((reply.working_counter ≡ d.expected_wkc) × (reply.working_counter ≢ 0))
unfolding apply_reply
apply_reply-complete d reply = (λ h. (ground arith, ground arith), λ h. ground arith)

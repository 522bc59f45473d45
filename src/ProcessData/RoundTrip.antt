-- ===== src/ProcessData/RoundTrip.antt =====
-- A pin reads back what was written to it, and a write leaves every other byte alone.
use native.Mathlib.Nat.{pow-suc}
use rtic_ecmaster.Base.{
  ℕ, zero, suc, ◌+◌, ◌-◌, ◌*◌, ◌/◌, ◌%◌, ◌^◌, ◌≤◌, ◌<◌, ◌≡◌, ◌⊎◌, inl, inr, refl, ◌∙◌, arith,
  Bool-cases, List, ltb, ◌==◌, if◌then◌else◌, length, set, byte_at, length-set, get_or-set_self,
  get_or-set_ne, set_bit, clear_bit,
}
use rtic_ecmaster.Config.{HalType, bit, u32, s32, PinCfg}
use rtic_ecmaster.ProcessData.{
  sign_extend, read_bytes, write_bytes, byte_count, read_value, write_value, write_typed,
}

pub length-write_bytes :
    (n : ℕ) (image : List ℕ) (off raw : ℕ) → length (write_bytes n image off raw) ≡ length image
unfolding write_bytes
length-write_bytes zero image off raw = refl
length-write_bytes (suc n) image off raw =
    length-write_bytes n (set image off (raw % 256)) (off + 1) (raw / 256)
    ∙ length-set image off (raw % 256)

-- Bytes outside `off .. off + n` stay.
pub write_bytes_out :
    (n : ℕ) (image : List ℕ) (off raw i : ℕ)
    → (i < off) ⊎ (off + n ≤ i)
    → byte_at (write_bytes n image off raw) i ≡ byte_at image i
unfolding write_bytes
write_bytes_out zero image off raw i h = refl
write_bytes_out (suc n) image off raw i h =
    write_bytes_out n (set image off (raw % 256)) (off + 1) (raw / 256) i (omega arith)
    ∙ get_or-set_ne image off i (raw % 256) 0 (omega arith)

pub read_bytes-write_bytes :
    (n : ℕ) (image : List ℕ) (off raw : ℕ)
    → raw < 256 ^ n
    → off + n ≤ length image
    → read_bytes n (write_bytes n image off raw) off ≡ raw
unfolding read_bytes write_bytes
read_bytes-write_bytes zero image off raw h fit = omega arith
read_bytes-write_bytes (suc n) image off raw h fit =
    let image' = set image off (raw % 256) in
    omega (
      arith,
      pow-suc 256 n,
      write_bytes_out n image' (off + 1) (raw / 256) off (inl (omega arith)),
      get_or-set_self image off (raw % 256) 0 (omega arith),
      read_bytes-write_bytes n image' (off + 1) (raw / 256) (omega (arith, pow-suc 256 n))
          (omega (arith, length-set image off (raw % 256))),
    )

-- An unsigned pin of whole bytes inside the image reads back every value that fits it.
pub read_value-write_value :
    (image : List ℕ) (pin : PinCfg) (n v : ℕ)
    → pin.hal_type ≡ u32
    → pin.bit_len ≡ 8 * n
    → pin.byte_offset + n ≤ length image
    → v < 256 ^ n
    → read_value (write_value image pin v) pin ≡ v
unfolding read_value write_value
read_value-write_value image pin n v t b fit h =
    let count : byte_count pin.bit_len ≡ n = omega arith in
    rw (t, count) (read_bytes-write_bytes n image pin.byte_offset v h fit)

-- Only the low 32 bits of a value reach a 32-bit pin.
write_bytes_four :
    (image : List ℕ) (off raw : ℕ)
    → write_bytes 4 image off raw ≡ write_bytes 4 image off (raw % 2 ^ 32)
unfolding write_bytes
write_bytes_four image off raw =
    let b0 : raw % 256 ≡ raw % 2 ^ 32 % 256 = omega arith in
    let b1 : raw / 256 % 256 ≡ raw % 2 ^ 32 / 256 % 256 = omega arith in
    let b2 : raw / 256 / 256 % 256 ≡ raw % 2 ^ 32 / 256 / 256 % 256 = omega arith in
    let b3 : raw / 256 / 256 / 256 % 256 ≡ raw % 2 ^ 32 / 256 / 256 / 256 % 256 = omega arith in
    rw (b0, b1, b2, b3)

sign_extend_32 :
    (v : ℕ)
    → (v < 2 ^ 31) ⊎ ((2 ^ 64 - 2 ^ 31 ≤ v) × (v < 2 ^ 64))
    → sign_extend (v % 2 ^ 32) 32 ≡ v
unfolding sign_extend
sign_extend_32 v (inl h) = ground arith
sign_extend_32 v (inr h) = ground arith

-- A signed 32-bit pin inside the image reads back every signed 32-bit value, sign-extended.
pub read_value-write_value_signed :
    (image : List ℕ) (pin : PinCfg) (v : ℕ)
    → pin.hal_type ≡ s32
    → pin.bit_len ≡ 32
    → pin.byte_offset + 4 ≤ length image
    → (v < 2 ^ 31) ⊎ ((2 ^ 64 - 2 ^ 31 ≤ v) × (v < 2 ^ 64))
    → read_value (write_value image pin v) pin ≡ v
unfolding read_value write_value
read_value-write_value_signed image pin v t b fit h =
    rw (t, b)
      (rw
        (
          write_bytes_four image pin.byte_offset v,
          read_bytes-write_bytes 4 image pin.byte_offset (v % 2 ^ 32) (omega arith) fit,
        )
        (sign_extend_32 v h))

-- The bytes that a pin may change.
abbrev pub width : HalType → ℕ → ℕ
width bit bit_len = 1
width u32 bit_len = byte_count bit_len
width s32 bit_len = byte_count bit_len

write_typed_frame :
    (t : HalType) (image : List ℕ) (pin : PinCfg) (v i : ℕ)
    → (i < pin.byte_offset) ⊎ (pin.byte_offset + width t pin.bit_len ≤ i)
    → (byte_at (write_typed t image pin v) i ≡ byte_at image i)
      × (length (write_typed t image pin v) ≡ length image)
unfolding write_typed
write_typed_frame bit image pin v i h =
    let old = byte_at image pin.byte_offset in
    let new = if v == 0 then clear_bit old pin.bit_pos else set_bit old pin.bit_pos in
    elim (Bool-cases (ltb pin.byte_offset (length image))) [
      | inl t ↦ rw t (
        get_or-set_ne image pin.byte_offset i new 0 (omega arith),
        length-set image pin.byte_offset new,
      )
      | inr t ↦ rw t (refl, refl)
    ]
write_typed_frame u32 image pin v i h = (
  write_bytes_out (byte_count pin.bit_len) image pin.byte_offset v i h,
  length-write_bytes (byte_count pin.bit_len) image pin.byte_offset v,
)
write_typed_frame s32 image pin v i h = (
  write_bytes_out (byte_count pin.bit_len) image pin.byte_offset v i h,
  length-write_bytes (byte_count pin.bit_len) image pin.byte_offset v,
)

-- A write changes no byte outside the pin, and not the image's length.
pub write_value_frame :
    (image : List ℕ) (pin : PinCfg) (v i : ℕ)
    → (i < pin.byte_offset) ⊎ (pin.byte_offset + width pin.hal_type pin.bit_len ≤ i)
    → (byte_at (write_value image pin v) i ≡ byte_at image i)
      × (length (write_value image pin v) ≡ length image)
unfolding write_value
write_value_frame image pin v i h = write_typed_frame pin.hal_type image pin v i h

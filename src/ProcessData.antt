-- ===== src/ProcessData.antt =====
-- src/hal/process_data.rs: typed reads and writes of pins in the process image. An `i64` value is
-- its 64-bit pattern.
pub mod RoundTrip
use rtic_ecmaster.Base.{
  ℕ, zero, suc, ◌+◌, ◌-◌, ◌*◌, ◌/◌, ◌%◌, ◌^◌, Bool, true, false, ◌||◌, List, ltb, leb, ◌==◌,
  if◌then◌else◌, length, set, byte_at, set_bit, clear_bit, u64,
}
use rtic_ecmaster.Config.{HalType, bit, u32, s32, PinCfg}

-- `sign_extend`: up by `64 - bits`, and down again by the arithmetic shift.
unfoldable pub sign_extend : ℕ → ℕ → ℕ
sign_extend raw bits =
    let shift = 64 - bits in
    let up = u64 (raw * 2 ^ shift) in
    let down = if ltb up (2 ^ 63) then up / 2 ^ shift else up / 2 ^ shift + (2 ^ 64 - 2 ^ bits) in
    if bits == 0 || leb 64 bits then raw else down

-- The loop that gathers `nbytes` bytes, low byte first; a byte past the image's end counts as 0.
unfoldable pub read_bytes : ℕ → List ℕ → ℕ → ℕ
read_bytes zero image off = 0
read_bytes (suc n) image off = byte_at image off + 256 * read_bytes n image (off + 1)

-- The loop that stores `nbytes` bytes of `raw`, low byte first, inside the image only.
unfoldable pub write_bytes : ℕ → List ℕ → ℕ → ℕ → List ℕ
write_bytes zero image off raw = image
write_bytes (suc n) image off raw = write_bytes n (set image off (raw % 256)) (off + 1) (raw / 256)

-- `(bit_len as usize).div_ceil(8)`
abbrev pub byte_count : ℕ → ℕ
byte_count bit_len = (bit_len + 7) / 8

read_typed : HalType → List ℕ → PinCfg → ℕ
read_typed bit image pin =
    if ltb pin.byte_offset (length image)
    then byte_at image pin.byte_offset / 2 ^ pin.bit_pos % 2
    else 0
read_typed u32 image pin = read_bytes (byte_count pin.bit_len) image pin.byte_offset
read_typed s32 image pin =
    sign_extend (read_bytes (byte_count pin.bit_len) image pin.byte_offset) pin.bit_len

-- `read_value`
unfoldable pub read_value : List ℕ → PinCfg → ℕ
unfolding read_typed
read_value image pin = read_typed pin.hal_type image pin

write_typed : HalType → List ℕ → PinCfg → ℕ → List ℕ
write_typed bit image pin value =
    let old = byte_at image pin.byte_offset in
    let new = if value == 0 then clear_bit old pin.bit_pos else set_bit old pin.bit_pos in
    if ltb pin.byte_offset (length image) then set image pin.byte_offset new else image
write_typed u32 image pin value = write_bytes (byte_count pin.bit_len) image pin.byte_offset value
write_typed s32 image pin value = write_bytes (byte_count pin.bit_len) image pin.byte_offset value

-- `write_value`
unfoldable pub write_value : List ℕ → PinCfg → ℕ → List ℕ
unfolding write_typed
write_value image pin value = write_typed pin.hal_type image pin value

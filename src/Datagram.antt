-- ===== src/Datagram.antt =====
-- src/ethercat/datagram.rs: one EtherCAT frame with its datagrams, written into a caller's
-- buffer and read back. A write or a read out of the buffer's range panics, here `none`.
pub mod Wire
pub mod Parse
pub mod Append
pub mod Chain
pub mod Frames
pub mod Build
use rtic_ecmaster.Base.{
  ℕ, zero, suc, ◌+◌, ◌-◌, ◌*◌, ◌/◌, ◌%◌, ◌^◌, Bool, true, false, Option, none, some, List, [], ◌∷◌,
  ltb, leb, ◌==◌, if◌then◌else◌, length, slice, copy_at, u16, low_bits, set_bit, test_bit, le16,
  byte_at, read_le16, replicate,
}
use rtic_ecmaster.Base.Checked.{◌>>=◌, checked_le16}

-- `Command`, with its `#[repr(u8)]` codes.
pub data Command : Type 0 where
  aprd apwr aprw fprd fpwr fprw brd bwr brw lrd lwr lrw armw frmw : Command

abbrev pub code : Command → ℕ
code aprd = 0x01
code apwr = 0x02
code aprw = 0x03
code fprd = 0x04
code fpwr = 0x05
code fprw = 0x06
code brd = 0x07
code bwr = 0x08
code brw = 0x09
code lrd = 0x0A
code lwr = 0x0B
code lrw = 0x0C
code armw = 0x0D
code frmw = 0x0E

-- `Reply`; the borrowed data is the list of its bytes.
pub record Reply : Type 0 where
  pub command : ℕ
  pub index : ℕ
  pub working_counter : ℕ
  pub payload : List ℕ

-- Sizes of src/ethercat/globals.rs.
abbrev pub frame_header_size : ℕ
frame_header_size = 2

abbrev pub header_size : ℕ
header_size = 10

abbrev pub footer_size : ℕ
footer_size = 2

abbrev pub min_ecat_frame : ℕ
min_ecat_frame = 46

-- `0u16.wrapping_sub(ring_pos)`
unfoldable pub autoinc_adp : ℕ → ℕ
autoinc_adp ring_pos = u16 (65536 - ring_pos)

-- `((n as u16) & 0x07FF) | 0x1000`, the frame header over `n` bytes of datagrams.
abbrev pub frame_hdr : ℕ → ℕ
frame_hdr n = set_bit (low_bits (u16 n) 11) 12

-- The `while total < EC_MIN_ECAT_FRAME` loop; 46 rounds are enough from any `total`.
unfoldable pub pad_frame : ℕ → List ℕ → ℕ → Option (List ℕ × ℕ)
pad_frame zero buf total = some (buf, total)
pad_frame (suc rounds) buf total =
    let rest = copy_at total (0 ∷ []) buf >>= λ buf'. pad_frame rounds buf' (total + 1) in
    if ltb total min_ecat_frame then rest else some (buf, total)

-- `build`, giving the buffer and the frame's length.
unfoldable pub build : List ℕ → ℕ → Command → ℕ → ℕ → List ℕ → Option (List ℕ × ℕ)
build buf index cmd adp ado payload = do
  let plen = length payload
  let datagram_len = header_size + plen + footer_size
  b0 ← copy_at 0 (le16 (frame_hdr datagram_len)) buf
  b1 ← copy_at 2 (code cmd ∷ []) b0
  b2 ← copy_at 3 (index ∷ []) b1
  b3 ← copy_at 4 (le16 adp) b2
  b4 ← copy_at 6 (le16 ado) b3
  b5 ← copy_at 8 (le16 (low_bits (u16 plen) 11)) b4
  b6 ← copy_at 10 (le16 0) b5
  b7 ← copy_at 12 payload b6
  b8 ← copy_at (12 + plen) (le16 0) b7
  pad_frame min_ecat_frame b8 (frame_header_size + datagram_len)

-- The loop of `append`: from the datagram at `off` to the last one, whose "more follows" bit it
-- sets; gives the buffer and the offset behind it. An offset grows by 12 at least in each round
-- and a read past the buffer panics, so `length buf` rounds are never used up.
unfoldable pub mark_last : ℕ → List ℕ → ℕ → ℕ → Option (List ℕ × ℕ)
mark_last zero buf off region_end = none
mark_last (suc rounds) buf off region_end = do
  let len_off = off + 6
  len_word ← checked_le16 buf len_off
  let next = off + header_size + low_bits len_word 11 + footer_size
  let rest = mark_last rounds buf next region_end
  let marked = copy_at len_off (le16 (set_bit len_word 15)) buf >>= λ buf'. some (buf', next)
  if leb region_end next then marked else rest

-- The writes of `append` behind the last datagram, and the new frame header.
unfoldable pub append_at : List ℕ → ℕ → ℕ → ℕ → Command → ℕ → ℕ → List ℕ → Option (List ℕ × ℕ)
append_at buf off region index cmd adp ado payload = do
  let plen = length payload
  b1 ← copy_at off (code cmd ∷ []) buf
  b2 ← copy_at (off + 1) (index ∷ []) b1
  b3 ← copy_at (off + 2) (le16 adp) b2
  b4 ← copy_at (off + 4) (le16 ado) b3
  b5 ← copy_at (off + 6) (le16 (low_bits (u16 plen) 11)) b4
  b6 ← copy_at (off + 8) (le16 0) b5
  b7 ← copy_at (off + 10) payload b6
  b8 ← copy_at (off + 10 + plen) (le16 0) b7
  let new_region = region + header_size + plen + footer_size
  b9 ← copy_at 0 (le16 (frame_hdr new_region)) b8
  pad_frame min_ecat_frame b9 (frame_header_size + new_region)

-- `append`
unfoldable pub append : List ℕ → ℕ → Command → ℕ → ℕ → List ℕ → Option (List ℕ × ℕ)
append buf index cmd adp ado payload = do
  header ← checked_le16 buf 0
  let region = low_bits header 11
  let region_end = frame_header_size + region
  (b, off) ← mark_last (length buf) buf frame_header_size region_end
  append_at b off region index cmd adp ado payload

-- `parse_at`: the reply at `off` and the offset of the next datagram, 0 behind the last.
unfoldable pub parse_at : List ℕ → ℕ → Option (Reply × ℕ)
parse_at frame off =
    let len_word = read_le16 frame (off + 6) in
    let data_start = off + header_size in
    let wkc_start = data_start + low_bits len_word 11 in
    let reply : Reply = record {
      command = byte_at frame off;
      index = byte_at frame (off + 1);
      working_counter = read_le16 frame wkc_start;
      payload = slice data_start wkc_start frame;
    } in
    let next = if test_bit len_word 15 then wkc_start + footer_size else 0 in
    if ltb (length frame) (off + header_size + footer_size)
    then none
    else if ltb (length frame) (wkc_start + footer_size)
    then none
    else some (reply, next)

-- `parse`, of a frame with one datagram.
unfoldable pub parse : List ℕ → Option Reply
parse frame =
    let data_len = low_bits (read_le16 frame 8) 11 in
    let data_start = frame_header_size + header_size in
    let wkc_start = data_start + data_len in
    let reply : Reply = record {
      command = byte_at frame 2;
      index = byte_at frame 3;
      working_counter = read_le16 frame wkc_start;
      payload = slice data_start wkc_start frame;
    } in
    if ltb (length frame) (frame_header_size + header_size + footer_size)
    then none
    else if ltb (length frame) (wkc_start + footer_size)
    then none
    else some reply

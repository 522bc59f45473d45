-- ===== src/HostBridge.antt =====
-- src/hal/host_bridge.rs: the frames exchanged with the host, and the state between the SPI task and
-- the cyclic task. The constants that a build generates from the bus configuration are a `Layout`.
pub mod Crc
pub mod Link
pub mod Reply
use Prim.Native.Nat.{bit_xor}
use rtic_ecmaster.Base.{
  ℕ, zero, suc, ◌+◌, ◌-◌, ◌*◌, ◌/◌, min, max, Bool, true, false, ◌&&◌, not, Option, none, some,
  List, [], ◌∷◌, ◌++◌, ltb, leb, ◌==◌, if◌then◌else◌, length, take, replicate, slice, overwrite,
  byte_at, u16, u32, test_bit, le16, le32, read_le16, read_le32,
}
use rtic_ecmaster.Config.{BusCfg, SlaveCfg, StreamField}
use rtic_ecmaster.Motion
use rtic_ecmaster.Motion.{MotionRing, active, payload_of}

-- `BUS`, `MAX_SAMPLES_PER_FRAME`, `STREAM_SAMPLE_BYTES` and `STREAM_FIELDS`.
pub record Layout : Type 0 where
  pub bus : BusCfg
  pub max_samples : ℕ
  pub sample_bytes : ℕ
  pub fields : List StreamField

abbrev pub magic : ℕ
magic = 0xA7EC

abbrev pub version : ℕ
version = 1

-- The loop of `out_bytes`.
unfoldable pub sum_out : List SlaveCfg → ℕ
sum_out [] = 0
sum_out (s ∷ ss) = s.out_size + sum_out ss

-- `OUT_BYTES` and `IN_BYTES`.
abbrev pub out_bytes : Layout → ℕ
out_bytes layout = sum_out layout.bus.slaves

abbrev pub in_bytes : Layout → ℕ
in_bytes layout = layout.bus.image_size - out_bytes layout

abbrev pub sample_stride : Layout → ℕ
sample_stride layout = 4 + layout.sample_bytes

-- `MOSI_LEN`, `MISO_LEN` and `FRAME_LEN`.
abbrev pub mosi_len : Layout → ℕ
mosi_len layout = 8 + out_bytes layout + 1 + layout.max_samples * sample_stride layout + 2

abbrev pub miso_len : Layout → ℕ
miso_len layout = 18 + in_bytes layout + 2

abbrev pub frame_len : Layout → ℕ
frame_len layout = max (mosi_len layout) (miso_len layout)

-- `ReplyStatus`
pub record ReplyStatus : Type 0 where
  pub link_up : Bool
  pub phase : ℕ
  pub wkc : ℕ
  pub expected_wkc : ℕ
  pub cycle_index : ℕ
  pub fault_flags : ℕ
  pub host_timeout : Bool

-- `HostBridge`
pub record HostBridge : Type 0 where
  pub staged_out : List ℕ
  pub flags : ℕ
  pub host_seq : ℕ
  pub host_wdog : ℕ
  pub last_seen_wdog : ℕ
  pub wdog_stall_cycles : ℕ
  pub out_valid : Bool
  pub staged_in : List ℕ
  pub teensy_wdog : ℕ
  pub crc_errs : ℕ
  pub seq_errs : ℕ
  pub frames_in : ℕ
  pub motion : MotionRing

-- `HostBridge::new`
unfoldable pub new : Layout → HostBridge
new layout = record {
  staged_out = replicate (out_bytes layout) 0;
  flags = 0;
  host_seq = 0;
  host_wdog = 0;
  last_seen_wdog = 0;
  wdog_stall_cycles = 0;
  out_valid = false;
  staged_in = replicate (frame_len layout) 0;
  teensy_wdog = 0;
  crc_errs = 0;
  seq_errs = 0;
  frames_in = 0;
  motion = Motion.new layout.sample_bytes;
}

-- One round of the inner loop of `crc16`.
abbrev pub crc_shift : ℕ → ℕ
crc_shift crc = if test_bit crc 15 then bit_xor (u16 (2 * crc)) 0x1021 else u16 (2 * crc)

abbrev pub crc_shifts : ℕ → ℕ → ℕ
crc_shifts zero crc = crc
crc_shifts (suc rounds) crc = crc_shifts rounds (crc_shift crc)

-- One round of the outer loop.
abbrev pub crc_byte : ℕ → ℕ → ℕ
crc_byte crc b = crc_shifts 8 (bit_xor crc (b * 256))

unfoldable pub crc_from : ℕ → List ℕ → ℕ
crc_from crc [] = crc
crc_from crc (b ∷ bs) = crc_from (crc_byte crc b) bs

-- `crc16`
abbrev pub crc16 : List ℕ → ℕ
crc16 data_bytes = crc_from 0xFFFF data_bytes

-- The loop of `ingest` over the streamed samples, from the sample `i`.
unfoldable pub push_samples : Layout → ℕ → ℕ → List ℕ → MotionRing → MotionRing
push_samples layout zero i samples ring = ring
push_samples layout (suc count) i samples ring =
    let base = i * sample_stride layout in
    let payload = slice (base + 4) (base + sample_stride layout) samples in
    let pushed = (Motion.push ring (read_le32 samples base) payload).0 in
    let rest = push_samples layout count (i + 1) samples pushed in
    if ltb (length samples) (base + sample_stride layout) then ring else rest

-- The tests of `ingest`: length, magic, CRC.
abbrev pub accepts : Layout → List ℕ → Bool
accepts layout mosi =
    let frame = take (mosi_len layout) mosi in
    let crc_pos = mosi_len layout - 2 in
    leb (mosi_len layout) (length mosi)
    && read_le16 frame 0 == magic
    && crc16 (take crc_pos frame) == read_le16 frame crc_pos

-- The part of `ingest` behind its tests.
abbrev pub absorb : Layout → HostBridge → List ℕ → HostBridge
absorb layout h frame =
    let seq = read_le16 frame 4 in
    let stream_off = 8 + out_bytes layout in
    let count = min (byte_at frame stream_off) layout.max_samples in
    let samples = slice (stream_off + 1) (mosi_len layout - 2) frame in
    record h {
      seq_errs = if h.out_valid && seq == h.host_seq then u32 (h.seq_errs + 1) else h.seq_errs;
      flags = byte_at frame 3;
      host_seq = seq;
      host_wdog = read_le16 frame 6;
      staged_out = slice 8 (8 + out_bytes layout) frame;
      out_valid = true;
      frames_in = u32 (h.frames_in + 1);
      motion = if active h.motion then push_samples layout count 0 samples h.motion else h.motion;
    }

-- `ingest`
unfoldable pub ingest : Layout → HostBridge → List ℕ → HostBridge
ingest layout h mosi =
    if accepts layout mosi
    then absorb layout h (take (mosi_len layout) mosi)
    else record h { crc_errs = u32 (h.crc_errs + 1) }

-- The loop of `apply_outputs` over the streamed fields.
unfoldable pub copy_fields : List StreamField → List ℕ → List ℕ → List ℕ
copy_fields [] payload image = image
copy_fields (f ∷ fs) payload image =
    let copied = overwrite image f.image_off (slice f.sample_off (f.sample_off + f.len) payload) in
    copy_fields fs payload (
      if leb (f.sample_off + f.len) (length payload) && leb (f.image_off + f.len) (length image)
      then copied
      else image)

-- The motion part of `apply_outputs`.
abbrev pub apply_motion : Layout → HostBridge → List ℕ → ℕ → HostBridge × List ℕ
apply_motion layout h image cycle_index =
    let (ring, got) = Motion.pop h.motion cycle_index in
    let h' : HostBridge = record h { motion = ring } in
    elim got [
      | none ↦ (h', image)
      | some slot ↦ (h', copy_fields layout.fields (payload_of ring slot) image)
    ]

-- `apply_outputs`
unfoldable pub apply_outputs : Layout → HostBridge → List ℕ → ℕ → HostBridge × List ℕ
apply_outputs layout h image cycle_index =
    let n = min (out_bytes layout) (length image) in
    let image' = overwrite image 0 (take n h.staged_out) in
    let moved = apply_motion layout h image' cycle_index in
    if not h.out_valid then (h, image) else if active h.motion then moved else (h, image')

-- `tick_watchdog`: the bridge; the answer is its stall count.
unfoldable pub tick_watchdog : HostBridge → HostBridge
tick_watchdog h =
    if not (h.host_wdog == h.last_seen_wdog)
    then record h { last_seen_wdog = h.host_wdog; wdog_stall_cycles = 0 }
    else if h.out_valid
    then record h { wdog_stall_cycles = min (h.wdog_stall_cycles + 1) 65535 }
    else h

abbrev pub flag_bit : Bool → ℕ → ℕ
flag_bit b value = if b then value else 0

-- The 18 bytes of the reply's header.
unfoldable pub reply_header : HostBridge → ReplyStatus → List ℕ
reply_header h st =
    le16 magic
    ++ (version
        ∷ (flag_bit st.link_up 1
            + flag_bit (st.phase == 2) 2
            + flag_bit (st.phase == 3) 4
            + flag_bit st.host_timeout 8)
        ∷ (le16 h.host_seq
            ++ (le16 h.teensy_wdog
                ++ (le32 st.cycle_index
                    ++ (st.wkc
                        ∷ st.expected_wkc
                        ∷ st.phase
                        ∷ st.fault_flags
                        ∷ min h.motion.len 255
                        ∷ 0
                        ∷ [])))))

-- `build_reply` from the live image.
unfoldable pub build_reply : Layout → HostBridge → List ℕ → ReplyStatus → HostBridge
build_reply layout h image st =
    let h' : HostBridge = record h { teensy_wdog = u16 (h.teensy_wdog + 1) } in
    let cleared = overwrite h.staged_in 0 (replicate (miso_len layout) 0) in
    let headed = overwrite cleared 0 (reply_header h' st) in
    let in_off = layout.bus.image_size - in_bytes layout in
    let n = min (in_bytes layout) (length image - in_off) in
    let filled = overwrite headed 18 (slice in_off (in_off + n) image) in
    let crc_pos = miso_len layout - 2 in
    record h' { staged_in = overwrite filled crc_pos (le16 (crc16 (take crc_pos filled))) }

-- `reply`
abbrev pub reply : Layout → HostBridge → List ℕ
reply layout h = take (miso_len layout) h.staged_in

-- The host's requests, and `motion_underrun`.
abbrev pub enable_requested : HostBridge → Bool
enable_requested h = h.out_valid && test_bit h.flags 0

abbrev pub fault_reset_requested : HostBridge → Bool
fault_reset_requested h = h.out_valid && test_bit h.flags 1

abbrev pub quick_stop_requested : HostBridge → Bool
quick_stop_requested h = test_bit h.flags 2

abbrev pub motion_underrun : HostBridge → Bool
motion_underrun h = active h.motion && h.motion.underrun

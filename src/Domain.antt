-- ===== src/Domain.antt =====
-- src/ethercat/domain.rs: the process image of all slaves, exchanged by one LRW datagram a cycle.
pub mod Image
pub mod FromConfig
use rtic_ecmaster.Base.{
  ℕ, ◌+◌, min, Bool, true, false, ◌&&◌, Option, none, some, List, [], ◌∷◌, ◌++◌, ltb, leb, ◌==◌,
  if◌then◌else◌, length, take, replicate, slice, overwrite, u16,
}
use rtic_ecmaster.Config.{EcDirection, output, input, FmmuCfg, SlaveCfg, BusCfg}
use rtic_ecmaster.Datagram.{Reply, lrw, build}

abbrev pub max_image : ℕ
max_image = 512

-- `EC_MAX_SLAVES`, the capacity of `input_ranges`.
abbrev pub max_ranges : ℕ
max_ranges = 32

pub data WkcState : Type 0 where
  zero incomplete complete : WkcState

-- `EcDomain`; a range is a start and a length.
pub record EcDomain : Type 0 where
  pub image : List ℕ
  pub len : ℕ
  pub expected_wkc : ℕ
  pub last_wkc : ℕ
  pub input_ranges : List (ℕ × ℕ)

-- `let _ = input_ranges.push(…)`: a full list drops the range.
abbrev pub push_range : List (ℕ × ℕ) → ℕ → ℕ → List (ℕ × ℕ)
push_range ranges start size =
    if ltb (length ranges) max_ranges then ranges ++ ((start, size) ∷ []) else ranges

abbrev pub add_mapping : EcDirection → FmmuCfg → ℕ × List (ℕ × ℕ) → ℕ × List (ℕ × ℕ)
add_mapping output fmmu (wkc, ranges) = (u16 (wkc + 2), ranges)
add_mapping input fmmu (wkc, ranges) =
    (u16 (wkc + 1), push_range ranges fmmu.logical_start fmmu.size)

-- The loop of `from_config` over one slave's FMMUs.
unfoldable pub scan_fmmus : List FmmuCfg → ℕ × List (ℕ × ℕ) → ℕ × List (ℕ × ℕ)
scan_fmmus [] acc = acc
scan_fmmus (fmmu ∷ fmmus) acc = scan_fmmus fmmus (add_mapping fmmu.dir fmmu acc)

-- The loop of `from_config` over the slaves.
unfoldable pub scan_slaves : List SlaveCfg → ℕ × List (ℕ × ℕ) → ℕ × List (ℕ × ℕ)
scan_slaves [] acc = acc
scan_slaves (slave ∷ slaves) acc = scan_slaves slaves (scan_fmmus slave.fmmus acc)

-- `from_config`
unfoldable pub from_config : BusCfg → EcDomain
from_config bus =
    let (wkc, ranges) = scan_slaves bus.slaves (0, []) in
    record {
      image = replicate max_image 0;
      len = min bus.image_size max_image;
      expected_wkc = wkc;
      last_wkc = 0;
      input_ranges = ranges;
    }

-- `image`, the live part.
unfoldable pub live_image : EcDomain → List ℕ
live_image d = take d.len d.image

-- `image_mut` after the application has written `bytes` over the live part.
unfoldable pub with_image : EcDomain → List ℕ → EcDomain
with_image d bytes = record d { image = overwrite d.image 0 bytes }

-- `build_lrw`
unfoldable pub build_lrw : EcDomain → List ℕ → ℕ → Option (List ℕ × ℕ)
unfolding live_image
build_lrw d buf index = build buf index lrw 0x0000 0x0000 (live_image d)

-- One input range of the reply copied into the image.
unfoldable pub copy_range : ℕ → ℕ → ℕ → List ℕ → List ℕ → List ℕ
copy_range start size len reply image =
    let end = min (start + size) len in
    if ltb start end && leb end (length reply)
    then overwrite image start (slice start end reply)
    else image

-- The loop of `apply_reply` over the input ranges.
unfoldable pub copy_ranges : List (ℕ × ℕ) → ℕ → List ℕ → List ℕ → List ℕ
copy_ranges [] len reply image = image
copy_ranges ((start, size) ∷ ranges) len reply image =
    copy_ranges ranges len reply (copy_range start size len reply image)

abbrev pub wkc_state : ℕ → ℕ → WkcState
wkc_state wkc expected =
    if wkc == 0 then WkcState.zero else if wkc == expected then complete else incomplete

-- `apply_reply`
unfoldable pub apply_reply : EcDomain → Reply → EcDomain × WkcState
apply_reply d reply = (
  record d {
    image = copy_ranges d.input_ranges d.len reply.payload d.image;
    last_wkc = reply.working_counter;
  },
  wkc_state reply.working_counter d.expected_wkc,
)

-- ===== src/Examples/Engine.antt =====
-- The engine on concrete buses and reply frames.
use mathlib.Core.List.{Memᴰ}
use rtic_ecmaster.Base.{
  ℕ, ◌≡◌, ◌<◌, ◌↔◌, ◌⊎◌, refl, arith, none, List, [], ◌∷◌, length, take, byte_at, u16,
  if◌then◌else◌,
}
use rtic_ecmaster.Config.{BusCfg, SlaveCfg, output, input}
use rtic_ecmaster.Datagram.{parse_at}
use rtic_ecmaster.Datagram.Wire.{Datagram, Decodes, encode_all, reply_of}
use rtic_ecmaster.Domain.{apply_reply, from_config}
use rtic_ecmaster.Domain.Image.{is_input, image-apply_reply}
use rtic_ecmaster.Domain.FromConfig.{weight, inputs, from_config_lem}
use rtic_ecmaster.Domain.{max_ranges}
use rtic_ecmaster.Cyclic.{Cyclic, faulted, al_poll, status, dc_armw, fault, walk, process, new}
use rtic_ecmaster.Cyclic.Replies.{effects, walk-Decodes}
use rtic_ecmaster.Cyclic.Marks.{Marked, Reported, process-marks}
use rtic_ecmaster.Cyclic.Phases.{IsValid, process-IsValid, process-faults}

-- One slave with two bytes out and two bytes in.
abbrev slave : SlaveCfg
slave = record {
  position = 0;
  vendor_id = 0;
  product_code = 0;
  sms = [];
  sdo_init = [];
  fmmus =
      record { logical_start = 0; size = 2; phys_start = 0x1100; dir = output }
      ∷ record { logical_start = 2; size = 2; phys_start = 0x1180; dir = input }
      ∷ [];
  dc = none;
  out_size = 2;
  in_size = 2;
}

abbrev pub bus : BusCfg
bus = record {
  cycle_ns = 1000000;
  ref_clock_slave = 0;
  slaves = slave ∷ [];
  pins = [];
  image_size = 4;
}

abbrev lrw_reply : Datagram
lrw_reply = record {
  command = 12;
  index = 7;
  adp = 0;
  ado = 0;
  payload = 1 ∷ 2 ∷ 3 ∷ 4 ∷ [];
  working_counter = 3;
}

abbrev poll_reply : Datagram
poll_reply = record {
  command = 4;
  index = 8;
  adp = 4097;
  ado = 0x130;
  payload = 0x14 ∷ 0 ∷ [];
  working_counter = 1;
}

-- The reply frame of a cycle in which the slave reports an error.
abbrev frame : List ℕ
frame = 0x1E ∷ 0x10 ∷ encode_all (lrw_reply ∷ poll_reply ∷ [])

abbrev pub engine : Cyclic
engine = record (new bus (record { station = 4097; ring_pos = 0 } ∷ []) 0 1000000) {
  rx = frame;
  appended = al_poll ∷ [];
}

engine-IsValid : IsValid engine
unfolding new
engine-IsValid = ground arith

process-IsValid_example : IsValid (process engine 32)
process-IsValid_example = process-IsValid engine 32 engine-IsValid

process-faults_example :
    ((process engine 32).phase ≡ faulted)
    ↔ ((engine.phase ≡ faulted) ⊎ Memᴰ fault (walk (al_poll ∷ []) (take 32 frame) 18))
unfolding parse_at new
process-faults_example = process-faults engine 32 18 (reply_of lrw_reply) refl

both-Decodes : Decodes frame 2 (lrw_reply ∷ poll_reply ∷ [])
unfolding parse_at
both-Decodes = (18, omega arith, refl, (0, omega arith, refl, refl))

walk-Decodes_example :
    walk (dc_armw ∷ al_poll ∷ []) frame 2
    ≡ effects (dc_armw ∷ al_poll ∷ []) (lrw_reply ∷ poll_reply ∷ [])
walk-Decodes_example =
    walk-Decodes (dc_armw ∷ al_poll ∷ []) (lrw_reply ∷ poll_reply ∷ []) frame 2 refl both-Decodes

-- The reply frame of a cycle in which the slave reports OP.
abbrev op_reply : Datagram
op_reply = record poll_reply { payload = 8 ∷ 0 ∷ [] }

abbrev op_frame : List ℕ
op_frame = 0x1E ∷ 0x10 ∷ encode_all (lrw_reply ∷ op_reply ∷ [])

abbrev op_engine : Cyclic
op_engine = record engine { rx = op_frame; appended = status 0 ∷ [] }

op-Decodes : Decodes (take 32 op_frame) 18 (op_reply ∷ [])
unfolding parse_at
op-Decodes = (0, omega arith, refl, refl)

process-marks_example : Marked (process op_engine 32).slaves 0 ↔ (
    Marked op_engine.slaves 0
    ⊎ ((0 < length op_engine.slaves) × Reported (status 0 ∷ []) (op_reply ∷ []) 0))
unfolding parse_at new
process-marks_example =
    process-marks op_engine 32 18 (reply_of lrw_reply) (op_reply ∷ []) 0 refl refl op-Decodes

image-apply_reply_example :
    (byte_at (apply_reply (from_config bus) (reply_of lrw_reply)).0.image 2 ≡ (
      if is_input (from_config bus).input_ranges (from_config bus).len 4 2
      then byte_at (1 ∷ 2 ∷ 3 ∷ 4 ∷ []) 2
      else byte_at (from_config bus).image 2))
    × (length (apply_reply (from_config bus) (reply_of lrw_reply)).0.image
        ≡ length (from_config bus).image)
unfolding from_config
image-apply_reply_example = image-apply_reply (from_config bus) (reply_of lrw_reply) 2 (omega arith)

from_config_lem_example :
    ((from_config bus).expected_wkc ≡ u16 (weight (slave ∷ [])))
    × ((from_config bus).input_ranges ≡ take max_ranges (inputs (slave ∷ [])))
from_config_lem_example = from_config_lem bus

-- ===== src/Examples/Pins.antt =====
-- Pins, drives and transactions on concrete inputs.
use Prim.Native.Nat.{bit_and}
use rtic_ecmaster.Base.{
  ℕ, ◌+◌, ◌-◌, ◌^◌, ◌≡◌, ◌≢◌, ◌⊎◌, inr, refl, arith, true, false, none, some, List, [], ◌∷◌,
  replicate, ok,
}
use rtic_ecmaster.Config.{PinCfg, HalType, output, input}
use rtic_ecmaster.Config
use rtic_ecmaster.ProcessData.{read_value, write_value}
use rtic_ecmaster.ProcessData.RoundTrip.{read_value-write_value_signed}
use rtic_ecmaster.Cia402.{
  DriveCommand, next_controlword, is_fault, sw_state_mask, sw_switched_on, sw_operation_enabled,
  cw_fault_reset,
}
use rtic_ecmaster.Cia402.Words.{next_controlword-enable, next_controlword-pulse}
use rtic_ecmaster.Device.{Enet, Device, Pump, pump, send, poll, taken}

abbrev word_pin : PinCfg
word_pin = record {
  name = [];
  byte_offset = 1;
  bit_pos = 0;
  bit_len = 16;
  hal_type = Config.u32;
  dir = output;
}

abbrev long_pin : PinCfg
long_pin = record {
  name = [];
  byte_offset = 2;
  bit_pos = 0;
  bit_len = 32;
  hal_type = Config.s32;
  dir = output;
}

abbrev image : List ℕ
image = replicate 8 3

read_value-write_value_signed_example :
    read_value (write_value image long_pin (2 ^ 64 - 5)) long_pin ≡ 2 ^ 64 - 5
read_value-write_value_signed_example =
    read_value-write_value_signed image long_pin (2 ^ 64 - 5) refl refl (omega arith)
      (inr (omega arith, omega arith))

abbrev enable_it : DriveCommand
enable_it = record { enable = true; fault_reset = false; quick_stop = false }

abbrev stop_it : DriveCommand
stop_it = record { enable = true; fault_reset = false; quick_stop = true }

abbrev reset_it : DriveCommand
reset_it = record { enable = false; fault_reset = true; quick_stop = false }

next_controlword-enable_example :
    (is_fault 0x23 ≡ false)
    × (enable_it.enable ≡ true)
    × (enable_it.quick_stop ≡ false)
    × ((bit_and 0x23 sw_state_mask ≡ sw_switched_on)
        ⊎ (bit_and 0x23 sw_state_mask ≡ sw_operation_enabled))
unfolding next_controlword
next_controlword-enable_example = next_controlword-enable 0x23 enable_it false refl

next_controlword-pulse_example :
    (is_fault 8 ≡ true)
    × (reset_it.fault_reset ≡ true)
    × (false ≡ false)
    × ((next_controlword 8 reset_it (next_controlword 8 reset_it false).1).0 ≢ cw_fault_reset)
unfolding next_controlword
next_controlword-pulse_example = next_controlword-pulse 8 8 reset_it reset_it false refl

-- A NIC that always takes a frame and then holds the same reply.
abbrev reply_frame : List ℕ
reply_frame = 1 ∷ 1 ∷ 1 ∷ 1 ∷ 1 ∷ 1 ∷ 2 ∷ 2 ∷ 2 ∷ 2 ∷ 2 ∷ 2 ∷ 0x88 ∷ 0xA4 ∷ 0 ∷ 0x10 ∷ 12 ∷ 7 ∷ []

abbrev pub echo : Enet ℕ
echo = record { send_frame = λ s h p. (s + 1, true); poll_raw = λ s. (s, some reply_frame) }

abbrev pub quiet : Enet ℕ
quiet = record { send_frame = λ s h p. (s + 1, true); poll_raw = λ s. (s, none) }

abbrev pub link : Device ℕ
link = record { enet = 0; src_mac = 2 ∷ 2 ∷ 2 ∷ 2 ∷ 2 ∷ 2 ∷ [] }

abbrev question : List ℕ
question = 0 ∷ 0x10 ∷ 12 ∷ 7 ∷ []

abbrev asked : Pump
asked = record { sent = true; expected = 7; attempts = 2 }

reply_taken : (pump echo link asked question (replicate 4 0) 9).3 ≡ ok (some 4)
unfolding pump send poll taken
reply_taken = refl

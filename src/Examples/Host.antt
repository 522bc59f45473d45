-- ===== src/Examples/Host.antt =====
-- The host link and the Modbus registers on concrete frames.
use rtic_ecmaster.Base.{
  ℕ, ◌+◌, ◌≡◌, ◌≢◌, ◌≤◌, ◌<◌, ◌⊎◌, inl, inr, refl, arith, true, false, none, some, List, [], ◌∷◌,
  ◌++◌, length, set, u32, be16,
}
use rtic_ecmaster.HostBridge.{Layout, HostBridge, new, crc16, crc_from, sum_out, accepts, ingest}
use rtic_ecmaster.HostBridge.{ReplyStatus, build_reply, reply, miso_len}
use rtic_ecmaster.HostBridge.Reply.{build_reply-crc}
use rtic_ecmaster.Base.{◌-◌, take, read_le16}
use rtic_ecmaster.HostBridge.Crc.{crc16-set}
use rtic_ecmaster.HostBridge.Link.{ingest-changed}
use rtic_ecmaster.Modbus.{ModbusSlave, process_frame, read_holding}
use rtic_ecmaster.Modbus.Responses.{values, read_holding-values, Answers, process_frame-Answers}
use rtic_ecmaster.Cia402.{Binding}
use rtic_ecmaster.Cia402.Commanded.{NoneEnabled}
use rtic_ecmaster.Config
use rtic_ecmaster.Config.{input, output}
use rtic_ecmaster.Cyclic.{Cyclic}
use rtic_ecmaster.Cyclic.Host.{apply_drive_control}
use rtic_ecmaster.Cyclic.Safe.{apply_drive_control-safe}
use rtic_ecmaster.Domain.{live_image}
use rtic_ecmaster.Examples.Engine.{bus, engine}

abbrev layout : Layout
layout = record { bus = bus; max_samples = 0; sample_bytes = 0; fields = [] }

-- Outputs 170 and 187, the enable flag, and the heartbeat 5.
abbrev message : List ℕ
message = 0xEC ∷ 0xA7 ∷ 1 ∷ 1 ∷ 0 ∷ 0 ∷ 5 ∷ 0 ∷ 170 ∷ 187 ∷ 0 ∷ []

abbrev frame : List ℕ
frame = message ++ (13 ∷ 182 ∷ [])

abbrev bridge : HostBridge
bridge = record (new layout) { out_valid = true; host_wdog = 5; last_seen_wdog = 5 }

crc16-set_example : crc16 (set message 8 171) ≢ crc16 message
crc16-set_example = crc16-set message 8 171 (ground arith) (omega arith) (omega arith) (omega arith)

-- The frame as the SPI task hands it over, padded to the length of the reply.
abbrev padded : List ℕ
padded = frame ++ (0 ∷ 0 ∷ 0 ∷ 0 ∷ 0 ∷ 0 ∷ 0 ∷ 0 ∷ 0 ∷ [])

padded-accepted : accepts layout padded ≡ true
unfolding crc_from sum_out
padded-accepted = refl

ingest-changed_example :
    ingest layout bridge (set padded 8 171) ≡ record bridge { crc_errs = u32 (bridge.crc_errs + 1) }
unfolding sum_out
ingest-changed_example =
    ingest-changed layout bridge padded 8 171 (omega arith) (ground arith) padded-accepted
      (omega arith) (omega arith) (omega arith)

-- A drive with its controlword in the outputs and its statusword in the inputs.
abbrev drive : Binding
drive = record {
  cw = record {
    name = [];
    byte_offset = 0;
    bit_pos = 0;
    bit_len = 16;
    hal_type = Config.u32;
    dir = output;
  };
  sw = record {
    name = [];
    byte_offset = 2;
    bit_pos = 0;
    bit_len = 16;
    hal_type = Config.u32;
    dir = input;
  };
  fr_high = false;
}

-- The engine as somebody has enabled the drive by hand.
abbrev driven : Cyclic
driven = record engine {
  cia402 = drive ∷ [];
  domain = record engine.domain { image = 0x0F ∷ 0 ∷ 0x27 ∷ 0 ∷ []; len = 4 };
}

apply_drive_control-safe_example :
    NoneEnabled (live_image (apply_drive_control driven bridge true false).domain) (drive ∷ [])
unfolding live_image
apply_drive_control-safe_example =
    apply_drive_control-safe driven bridge true false refl (inr (inl refl))
      (record { unsigned = refl; sixteen = refl; fits = omega arith }, tt) (tt, tt)

abbrev pub registers : ModbusSlave
registers = record { address = 0; value = 10 } ∷ record { address = 0x18; value = 1 } ∷ []

abbrev request : List ℕ
request = 0 ∷ 9 ∷ 0 ∷ 0 ∷ 0 ∷ 6 ∷ 1 ∷ 3 ∷ 0 ∷ 0 ∷ 0 ∷ 2 ∷ []

read_holding-values_example :
    read_holding registers request 9 1
    ≡ be16 9 ++ (0 ∷ 0 ∷ 0 ∷ 7 ∷ 1 ∷ 3 ∷ 4 ∷ values registers 2 0)
read_holding-values_example =
    read_holding-values registers request 9 1 (omega arith) (omega arith) (omega arith)

process_frame-Answers_example :
    ((length request < 8) × ((process_frame registers request).1 ≡ none))
    ⊎ ((8 ≤ length request)
        × ((response : List ℕ) × ((process_frame registers request).1 ≡ some response)
            × Answers request response))
process_frame-Answers_example = process_frame-Answers registers request (ground arith)

abbrev report : ReplyStatus
report = record {
  link_up = true;
  phase = 2;
  wkc = 3;
  expected_wkc = 3;
  cycle_index = 77;
  fault_flags = 0;
  host_timeout = false;
}

build_reply-crc_example :
    crc16 (
      take
        (miso_len layout - 2)
        (reply layout (build_reply layout bridge (1 ∷ 2 ∷ 3 ∷ 4 ∷ []) report)))
    ≡ read_le16
        (reply layout (build_reply layout bridge (1 ∷ 2 ∷ 3 ∷ 4 ∷ []) report))
        (miso_len layout - 2)
unfolding new sum_out
build_reply-crc_example = build_reply-crc layout bridge (1 ∷ 2 ∷ 3 ∷ 4 ∷ []) report refl

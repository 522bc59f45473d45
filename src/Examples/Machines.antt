-- ===== src/Examples/Machines.antt =====
-- Runs of the state machines on concrete slaves and NICs.
use rtic_ecmaster.Base.{
  ℕ, ◌+◌, ◌≤◌, ◌<◌, ◌≡◌, arith, true, some, [], ◌∷◌, ◌++◌, replicate, ok, err, le32, sdo_abort, ◌-◌,
}
use rtic_ecmaster.Device.{Enet}
use rtic_ecmaster.Change
use rtic_ecmaster.Exchange.{Bus}
use rtic_ecmaster.Config.{output, SlaveCfg, DcCfg, PdoCfg, EcPdoEntryInfo}
use rtic_ecmaster.Slave.{Mailbox}
use rtic_ecmaster.Coe.{upload, download, parse_sdo_response}
use rtic_ecmaster.Coe.Responses.{sdo_answer, parse_sdo_response-expedited, parse_sdo_response-abort}
use rtic_ecmaster.Dc.{DcRef, cyclic_start, start_margin_ns}
use rtic_ecmaster.Dc.Times.{cyclic_start-ahead}
use rtic_ecmaster.SlaveConfig
use rtic_ecmaster.Examples.Pins.{link}

abbrev pub line : Bus ℕ
line = record { dev = link; index = 0 }

abbrev mbox : Mailbox
mbox = record {
  station_addr = 0x1001;
  rx_offset = 0x1000;
  rx_size = 128;
  tx_offset = 0x1080;
  tx_size = 128;
}

abbrev clocks : DcCfg
clocks = record {
  assign_activate = 0x0300;
  sync0_cycle_ns = 1000000;
  sync0_shift_ns = 500;
  sync1_cycle_ns = 0;
}

abbrev follower : DcRef
follower = record { ref_station = 0x1001; compensate = true }

abbrev controlword : EcPdoEntryInfo
controlword = record { index = 0x6040; subindex = 0; bit_length = 16 }

abbrev outputs : PdoCfg
outputs = record { index = 0x1600; entries = controlword ∷ [] }

abbrev pub drive : SlaveCfg
drive = record {
  position = 0;
  vendor_id = 0x66F;
  product_code = 0x60380007;
  sms =
      record {
        index = 2;
        phys_start = 0x1100;
        control = 0x64;
        dir = output;
        size = 2;
        pdos = outputs ∷ [];
      }
      ∷ [];
  fmmus = record { logical_start = 0; size = 2; phys_start = 0x1100; dir = output } ∷ [];
  dc = some clocks;
  sdo_init = record { index = 0x6060; subindex = 0; payload = 8 ∷ [] } ∷ [];
  out_size = 2;
  in_size = 0;
}

parse_sdo_response-expedited_example :
    parse_sdo_response upload (sdo_answer 0x4B 0x6041 0 (0x37 ∷ 2 ∷ 9 ∷ 9 ∷ []) [])
    ≡ ok (0x37 ∷ 2 ∷ 0 ∷ 0 ∷ [], 2)
parse_sdo_response-expedited_example =
    parse_sdo_response-expedited 0x6041 0 0x37 2 9 9 2 [] (omega arith) (omega arith)

parse_sdo_response-abort_example :
    parse_sdo_response download (sdo_answer 0x80 0x6041 0 (le32 0x06010002) [])
    ≡ err (sdo_abort 0x06010002)
parse_sdo_response-abort_example =
    parse_sdo_response-abort download 0x6041 0 0 0x06010002 [] (omega arith) (omega arith)

cyclic_start-ahead_example :
    (7 + start_margin_ns + 500 < cyclic_start clocks 7)
    × (cyclic_start clocks 7 ≤ 7 + start_margin_ns + 1000000 + 500)
cyclic_start-ahead_example = cyclic_start-ahead clocks 7 (omega arith)

-- A NIC that answers every request, with its index and the status "OP" of the slave 0x1001.
abbrev in_op : Enet ℕ
in_op = record {
  send_frame = λ s h p. (s + 1, true);
  poll_raw = λ s. (
    s,
    some (
        replicate 12 1
        ++ (0x88
            ∷ 0xA4
            ∷ 14
            ∷ 0x10
            ∷ 4
            ∷ (s - 1)
            ∷ 1
            ∷ 0x10
            ∷ 0x30
            ∷ 1
            ∷ 2
            ∷ 0
            ∷ 0
            ∷ 0
            ∷ 8
            ∷ 0
            ∷ 1
            ∷ 0
            ∷ [])),
  );
}

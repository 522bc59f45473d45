-- ===== src/Examples/Buses.antt =====
-- Runs of the scan and of the master on a bus of one drive.
use rtic_ecmaster.Base.{ℕ, ◌+◌, ◌*◌, ◌≡◌, true, none, List, [], ◌∷◌, length, ok}
use rtic_ecmaster.Config.{BusCfg}
use rtic_ecmaster.Exchange.Runs.{run}
use rtic_ecmaster.Slave.{SlaveInfo}
use rtic_ecmaster.Scan.{collect}
use rtic_ecmaster.Scan
use rtic_ecmaster.Scan.Order.{Delivered, collect-new}
use rtic_ecmaster.Master.{Master, Request, sdo_upload}
use rtic_ecmaster.Master.Down
use rtic_ecmaster.Master.Down.Ends.{step_done, down-converges}
use rtic_ecmaster.Examples.Pins.{quiet, link}
use rtic_ecmaster.Examples.Machines.{line, drive}

abbrev found : SlaveInfo
found = record {
  ring_pos = 0;
  station_addr = 0x1001;
  al_state = 2;
  base_type = 0x11;
  base_fmmu_count = 8;
  base_sync_count = 4;
  vendor_id = 0x66F;
  product_code = 0x60380007;
  revision = 1;
  rx_mbox_offset = 0x1000;
  rx_mbox_size = 128;
  tx_mbox_offset = 0x1080;
  tx_mbox_size = 128;
  mbox_protocols = 4;
  supports_coe = true;
}

abbrev pub bus : BusCfg
bus = record {
  cycle_ns = 1000000;
  ref_clock_slave = 0;
  slaves = drive ∷ [];
  pins = [];
  image_size = 2;
}

abbrev pub one_slave : Master ℕ
one_slave = record {
  device = link;
  slaves = found ∷ [];
  index = 9;
  op = none;
  sdo_buf = 0 ∷ 0 ∷ 0 ∷ 0 ∷ [];
  sdo_len = 0;
  cyclic = none;
}

abbrev read_status : Request
read_status = sdo_upload 0 0x6041 0

collect-new_example : Delivered (collect quiet 9000 Scan.new line [])
collect-new_example = collect-new quiet 9000 line

abbrev two_stations : List ℕ
two_stations = 0x1001 ∷ 0x1002 ∷ []

down-converges_example :
    (run (step_done quiet) ((length two_stations + 1) * 4014013) (Down.new two_stations) line).2
    ≡ ok true
down-converges_example = down-converges quiet two_stations line

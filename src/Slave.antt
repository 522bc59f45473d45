-- ===== src/Slave.antt =====
-- src/ethercat/slave.rs: what the scan learns of a slave.
use rtic_ecmaster.Base.{ℕ, Bool}

pub record Mailbox : Type 0 where
  pub station_addr : ℕ
  pub rx_offset : ℕ
  pub rx_size : ℕ
  pub tx_offset : ℕ
  pub tx_size : ℕ

pub record SlaveInfo : Type 0 where
  pub ring_pos : ℕ
  pub station_addr : ℕ
  pub al_state : ℕ
  pub base_type : ℕ
  pub base_fmmu_count : ℕ
  pub base_sync_count : ℕ
  pub vendor_id : ℕ
  pub product_code : ℕ
  pub revision : ℕ
  pub rx_mbox_offset : ℕ
  pub rx_mbox_size : ℕ
  pub tx_mbox_offset : ℕ
  pub tx_mbox_size : ℕ
  pub mbox_protocols : ℕ
  pub supports_coe : Bool

-- `SlaveInfo::mailbox`
abbrev pub mailbox : SlaveInfo → Mailbox
mailbox s = record {
  station_addr = s.station_addr;
  rx_offset = s.rx_mbox_offset;
  rx_size = s.rx_mbox_size;
  tx_offset = s.tx_mbox_offset;
  tx_size = s.tx_mbox_size;
}

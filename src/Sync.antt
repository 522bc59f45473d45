-- ===== src/Sync.antt =====
-- src/ethercat/sync.rs: the 8-byte pages of the sync managers.
use rtic_ecmaster.Base.{ℕ, List, [], ◌∷◌, ◌++◌, ltb, if◌then◌else◌, le16}

-- Values of `sm` in src/ethercat/globals.rs.
abbrev pub control_mbox_write : ℕ
control_mbox_write = 0x26

abbrev pub control_mbox_read : ℕ
control_mbox_read = 0x22

abbrev pub sm_enable : ℕ
sm_enable = 0x01

abbrev pub page_size : ℕ
page_size = 8

-- `write_page`
abbrev pub write_page : ℕ → ℕ → ℕ → ℕ → List ℕ
write_page phys_start len control enable =
    le16 phys_start ++ (le16 len ++ (control ∷ 0 ∷ enable ∷ 0 ∷ []))

abbrev pub write_mailbox_out : ℕ → ℕ → List ℕ
write_mailbox_out phys_start size = write_page phys_start size control_mbox_write sm_enable

abbrev pub write_mailbox_in : ℕ → ℕ → List ℕ
write_mailbox_in phys_start size = write_page phys_start size control_mbox_read sm_enable

abbrev pub write_process_out : ℕ → ℕ → ℕ → List ℕ
write_process_out phys_start size control =
    write_page phys_start size control (if ltb 0 size then sm_enable else 0)

abbrev pub write_process_in : ℕ → ℕ → ℕ → List ℕ
write_process_in phys_start size control =
    write_page phys_start size control (if ltb 0 size then sm_enable else 0)

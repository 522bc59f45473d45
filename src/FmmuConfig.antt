-- ===== src/FmmuConfig.antt =====
-- src/ethercat/fmmu_config.rs: the 16-byte page of one FMMU.
use rtic_ecmaster.Base.{ℕ, List, ◌∷◌, ◌++◌, le16, le32}
use rtic_ecmaster.Config.{EcDirection, input, output, FmmuCfg}

-- `fmmu::DIR_INPUT` and `fmmu::DIR_OUTPUT`
abbrev pub dir_byte : EcDirection → ℕ
dir_byte input = 0x01
dir_byte output = 0x02

abbrev pub page_size : ℕ
page_size = 16

-- `write_page`
abbrev pub write_page : FmmuCfg → List ℕ
write_page cfg =
    le32 cfg.logical_start
    ++ (le16 cfg.size
        ++ (0x00
            ∷ 0x07
            ∷ (le16 cfg.phys_start ++ (0x00 ∷ dir_byte cfg.dir ∷ (le16 0x0001 ++ le16 0x0000)))))

-- ===== src/Mailbox.antt =====
-- src/ethercat/mailbox.rs: the 6-byte mailbox header. The buffers are as long as what is written.
use rtic_ecmaster.Base.{
  ℕ, ◌+◌, ◌*◌, ◌/◌, ◌<◌, ◌≡◌, arith, Option, none, some, List, ◌∷◌, [], ◌++◌, ltb, if◌then◌else◌,
  length, byte_at, low_bits, le16, read_le16,
}

abbrev pub type_coe : ℕ
type_coe = 0x03

abbrev pub header_size : ℕ
header_size = 6

-- `write_header`
unfoldable pub write_header : ℕ → ℕ → ℕ → List ℕ
write_header data_len mbox_type counter =
    le16 data_len ++ (0 ∷ 0 ∷ 0 ∷ (low_bits mbox_type 4 + 16 * low_bits counter 3) ∷ [])

pub record Header : Type 0 where
  pub data_len : ℕ
  pub mbox_type : ℕ
  pub counter : ℕ

-- `parse_header`
unfoldable pub parse_header : List ℕ → Option Header
parse_header buf =
    let flags = byte_at buf 5 in
    if ltb (length buf) header_size
    then none
    else some (record {
      data_len = read_le16 buf 0;
      mbox_type = low_bits flags 4;
      counter = low_bits (flags / 16) 3;
    })

-- A header reads back as it was written, whatever follows it.
pub parse_header-write_header :
    (data_len mbox_type counter : ℕ) (rest : List ℕ)
    → data_len < 65536
    → mbox_type < 16
    → counter < 8
    → parse_header (write_header data_len mbox_type counter ++ rest)
      ≡ some (record { data_len = data_len; mbox_type = mbox_type; counter = counter })
unfolding parse_header write_header
parse_header-write_header data_len mbox_type counter rest h h' h'' = ground arith

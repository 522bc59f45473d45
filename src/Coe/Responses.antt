-- ===== src/Coe/Responses.antt =====
-- What the master reads from the answers of a slave.
use rtic_ecmaster.Base.{
  ℕ, zero, suc, ◌+◌, ◌-◌, ◌*◌, ◌≤◌, ◌<◌, ◌≡◌, arith, List, [], ◌∷◌, ◌++◌, replicate, take, le16,
  le32, le32_value, ok, err, sdo_abort,
}
use rtic_ecmaster.Mailbox.{type_coe, write_header, parse_header}
use rtic_ecmaster.Coe.{SdoKind, upload, parse_sdo, parse_sdo_response}

-- An answer in the form of ETG.1000.6: mailbox header, CoE header of an SDO response, command byte,
-- object, and four bytes; more of the mailbox may follow.
abbrev pub sdo_answer : ℕ → ℕ → ℕ → List ℕ → List ℕ → List ℕ
sdo_answer cmd index subindex four more =
    write_header 10 type_coe 0
    ++ (le16 0x3000 ++ (cmd ∷ (le16 index ++ (subindex ∷ (four ++ more)))))

-- The command byte of an expedited upload of `n` bytes: the size is given as the unused bytes.
abbrev pub expedited : ℕ → ℕ
expedited n = 0x43 + 4 * (4 - n)

-- An expedited answer of one to four bytes gives exactly these bytes, and their number.
pub parse_sdo_response-expedited :
    (index subindex b0 b1 b2 b3 n : ℕ) (more : List ℕ)
    → 1 ≤ n
    → n ≤ 4
    → parse_sdo_response upload
        (sdo_answer (expedited n) index subindex (b0 ∷ b1 ∷ b2 ∷ b3 ∷ []) more)
      ≡ ok (take n (b0 ∷ b1 ∷ b2 ∷ b3 ∷ []) ++ replicate (4 - n) 0, n)
unfolding parse_sdo_response parse_sdo parse_header write_header
parse_sdo_response-expedited index subindex b0 b1 b2 b3 zero more h h' = absurd (omega arith)
parse_sdo_response-expedited index subindex b0 b1 b2 b3 (suc zero) more h h' = ground arith
parse_sdo_response-expedited index subindex b0 b1 b2 b3 (suc (suc zero)) more h h' = ground arith
parse_sdo_response-expedited index subindex b0 b1 b2 b3 (suc (suc (suc zero))) more h h' =
    ground arith
parse_sdo_response-expedited index subindex b0 b1 b2 b3 (suc (suc (suc (suc zero)))) more h h' =
    ground arith
parse_sdo_response-expedited index subindex b0 b1 b2 b3 (suc (suc (suc (suc (suc n))))) more h h' =
    absurd (omega arith)

-- An abort of the slave, whatever its size and indicator bits are, is reported with its code, for an
-- upload and for a download.
pub parse_sdo_response-abort :
    (kind : SdoKind) (index subindex low code : ℕ) (more : List ℕ)
    → low < 32
    → code < 4294967296
    → parse_sdo_response kind (sdo_answer (0x80 + low) index subindex (le32 code) more)
      ≡ err (sdo_abort code)
unfolding parse_sdo_response parse_sdo parse_header write_header
parse_sdo_response-abort kind index subindex low code more h h' = ground (arith, le32_value code h')

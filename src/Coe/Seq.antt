-- ===== src/Coe/Seq.antt =====
-- `CoeSeq` of src/ethercat/fsm_coe.rs: a queue of SDO downloads, and the sequences that
-- src/ethercat/fsm_pdo.rs and src/ethercat/fsm_pdo_entry.rs build with it.
pub mod Ends
pub mod Fresh
pub mod Pdos
use rtic_ecmaster.Base.{
  ℕ, zero, suc, ◌+◌, ◌*◌, min, Bool, true, false, ◌&&◌, Option, none, some, List, [], ◌∷◌, ◌++◌,
  ltb, leb, if◌then◌else◌, length, take, get_elem?, le16, le32, u8, Outcome, ok, err, panic,
}
use rtic_ecmaster.Config.{PdoCfg, EcPdoEntryInfo}
use rtic_ecmaster.Device.{Enet}
use rtic_ecmaster.Exchange.{Bus}
use rtic_ecmaster.Slave.{Mailbox}
use rtic_ecmaster.Coe.{FsmCoe, new_download, four_bytes}
use rtic_ecmaster.Coe

abbrev pub max_seq : ℕ
max_seq = 36

pub record SdoWrite : Type 0 where
  pub index : ℕ
  pub subindex : ℕ
  pub payload : List ℕ
  pub len : ℕ

pub record CoeSeq : Type 0 where
  pub mbox : Mailbox
  pub ops : List SdoWrite
  pub cur : ℕ
  pub transfer : Option FsmCoe

-- `CoeSeq::new`; `transfer` is the field `coe`.
abbrev pub new : Mailbox → CoeSeq
new mbox = record { mbox = mbox; ops = []; cur = 0; transfer = none }

abbrev pub sdo_write : ℕ → ℕ → List ℕ → SdoWrite
sdo_write index subindex bytes = record {
  index = index;
  subindex = subindex;
  payload = four_bytes bytes;
  len = min (length bytes) 4;
}

-- `CoeSeq::push`; all its callers drop the error of a full sequence.
unfoldable pub push : CoeSeq → ℕ → ℕ → List ℕ → CoeSeq
push seq index subindex bytes =
    if ltb (length seq.ops) max_seq
    then record seq { ops = seq.ops ++ (sdo_write index subindex bytes ∷ []) }
    else seq

-- The transfer of an operation.
abbrev pub start : CoeSeq → SdoWrite → FsmCoe
start seq op = new_download seq.mbox op.index op.subindex (take op.len op.payload)

-- `if self.coe.is_none()`: the transfer that is stepped.
abbrev pub current : CoeSeq → Option FsmCoe → SdoWrite → FsmCoe
current seq none op = start seq op
current seq (some f) op = f

-- What the sequence makes of a step of its transfer.
unfoldable pub advance : CoeSeq → FsmCoe → Outcome Bool → CoeSeq × Outcome Bool
advance seq f (ok true) =
    (record seq { transfer = none; cur = seq.cur + 1 }, ok (leb (length seq.ops) (seq.cur + 1)))
advance seq f (ok false) = (record seq { transfer = some f }, ok false)
advance seq f (err e) = (record seq { transfer = some f }, err e)
advance seq f panic = (record seq { transfer = some f }, panic)

module _ {S : Type 0} (nic : Enet S) where
  -- The step of the running transfer.
  unfoldable pub step_transfer : CoeSeq → FsmCoe → Bus S → CoeSeq × Bus S × Outcome Bool
  step_transfer seq f bus =
      let (f', bus', o) = Coe.step nic f bus in
      let (seq', o') = advance seq f' o in (seq', bus', o')

  -- `CoeSeq::step`; a sequence is over as soon as `cur` is past its operations.
  unfoldable pub step : CoeSeq → Bus S → CoeSeq × Bus S × Outcome Bool
  step seq bus = elim (get_elem? seq.ops seq.cur) [
    | none ↦ (seq, bus, ok true)
    | some op ↦ step_transfer seq (current seq seq.transfer op) bus
  ]

-- `build_assign` of src/ethercat/fsm_pdo.rs; `coe::pdo_assign` is `0x1C10 + sync_index`.
unfoldable pub push_pdos : CoeSeq → ℕ → ℕ → List PdoCfg → CoeSeq
push_pdos seq obj i [] = seq
push_pdos seq obj i (pdo ∷ pdos) =
    push_pdos (push seq obj (u8 (i + 1)) (le16 pdo.index)) obj (i + 1) pdos

unfoldable pub build_assign : Mailbox → ℕ → List PdoCfg → CoeSeq
build_assign mbox sync_index pdos =
    let obj = 0x1C10 + sync_index in
    push (push_pdos (push (new mbox) obj 0 (0 ∷ [])) obj 0 pdos) obj 0 (u8 (length pdos) ∷ [])

-- `pack` of src/ethercat/fsm_pdo_entry.rs, whose three parts are disjoint.
abbrev pub pack : ℕ → ℕ → ℕ → ℕ
pack index subindex bit_length = 65536 * index + 256 * subindex + bit_length

unfoldable pub push_entries : CoeSeq → ℕ → ℕ → List EcPdoEntryInfo → CoeSeq
push_entries seq obj i [] = seq
push_entries seq obj i (entry ∷ entries) =
    push_entries
      (push seq obj (u8 (i + 1)) (le32 (pack entry.index entry.subindex entry.bit_length))) obj
      (i + 1) entries

-- `build_mapping`
unfoldable pub build_mapping : Mailbox → PdoCfg → CoeSeq
build_mapping mbox pdo =
    push (push_entries (push (new mbox) pdo.index 0 (0 ∷ [])) pdo.index 0 pdo.entries) pdo.index 0
      (u8 (length pdo.entries) ∷ [])

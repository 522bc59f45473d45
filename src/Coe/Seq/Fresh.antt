-- ===== src/Coe/Seq/Fresh.antt =====
-- The sequences of the PDO configuration are short and have not begun.
use mathlib.Core.Path.{subst}
use rtic_ecmaster.Base.{
  ℕ, ◌+◌, ◌≤◌, ◌<◌, ◌≡◌, inl, inr, refl, sym, ap, arith, none, List, [], ◌∷◌, length, length-append,
  ltb, u8, le16, le32, Bool-cases,
}
use rtic_ecmaster.Coe.Seq.{
  CoeSeq, new, push, build_mapping, build_assign, push_pdos, push_entries, pack, max_seq, sdo_write,
}
use rtic_ecmaster.Coe.Seq.Ends as SeqEnds
use rtic_ecmaster.Config.{PdoCfg, EcPdoEntryInfo}
use rtic_ecmaster.Slave.{Mailbox}

-- A sequence that has not begun.
pub record Fresh (seq : CoeSeq) : Type 0 where
  pub idle : seq.transfer ≡ none
  pub first : seq.cur ≡ 0
  pub few : length seq.ops ≤ 36

pub push-Fresh :
    (seq : CoeSeq) (index subindex : ℕ) (bytes : List ℕ)
    → Fresh seq
    → Fresh (push seq index subindex bytes)
unfolding push
push-Fresh seq index subindex bytes v = elim (Bool-cases (ltb (length seq.ops) max_seq)) [
  | inl e ↦ rw e (record {
    idle = v.idle;
    first = v.first;
    few = ground (arith, length-append seq.ops (sdo_write index subindex bytes ∷ []));
  })
  | inr e ↦ rw e v
]

push_pdos-Fresh :
    (seq : CoeSeq) (obj i : ℕ) (pdos : List PdoCfg) → Fresh seq → Fresh (push_pdos seq obj i pdos)
unfolding push_pdos
push_pdos-Fresh seq obj i [] v = v
push_pdos-Fresh seq obj i (pdo ∷ pdos) v =
    push_pdos-Fresh (push seq obj (u8 (i + 1)) (le16 pdo.index)) obj (i + 1) pdos
      (push-Fresh seq obj (u8 (i + 1)) (le16 pdo.index) v)

push_entries-Fresh :
    (seq : CoeSeq) (obj i : ℕ) (es : List EcPdoEntryInfo)
    → Fresh seq
    → Fresh (push_entries seq obj i es)
unfolding push_entries
push_entries-Fresh seq obj i [] v = v
push_entries-Fresh seq obj i (e ∷ es) v =
    push_entries-Fresh (push seq obj (u8 (i + 1)) (le32 (pack e.index e.subindex e.bit_length))) obj
      (i + 1) es (push-Fresh seq obj (u8 (i + 1)) (le32 (pack e.index e.subindex e.bit_length)) v)

pub new-Fresh : (mbox : Mailbox) → Fresh (new mbox)
new-Fresh mbox = record { idle = refl; first = refl; few = omega arith }

pub build_mapping-Fresh : (mbox : Mailbox) (pdo : PdoCfg) → Fresh (build_mapping mbox pdo)
unfolding build_mapping
build_mapping-Fresh mbox pdo =
    push-Fresh _ pdo.index 0 _
      (push_entries-Fresh _ pdo.index 0 pdo.entries (push-Fresh _ pdo.index 0 _ (new-Fresh mbox)))

pub build_assign-Fresh :
    (mbox : Mailbox) (sync_index : ℕ) (pdos : List PdoCfg)
    → Fresh (build_assign mbox sync_index pdos)
unfolding build_assign
build_assign-Fresh mbox sync_index pdos =
    push-Fresh _ _ 0 _ (push_pdos-Fresh _ _ 0 pdos (push-Fresh _ _ 0 _ (new-Fresh mbox)))

pub Fresh-Valid :
    (seq : CoeSeq) → Fresh seq → SeqEnds.IsValid seq × (SeqEnds.measure seq < 74333370)
Fresh-Valid seq v = (
  subst SeqEnds.TransferValid (sym v.idle) tt,
  let left : SeqEnds.transfer_left seq.transfer ≡ SeqEnds.transfer_calls =
        ap SeqEnds.transfer_left v.idle in
      omega (arith, left, v.first, v.few),
)

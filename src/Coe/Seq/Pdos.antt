-- ===== src/Coe/Seq/Pdos.antt =====
-- The sequences that configure the PDOs.
use rtic_ecmaster.Base.{
  ℕ, suc, ◌+◌, ◌≤◌, ◌<◌, ◌≡◌, refl, sym, ap, ◌∙◌, arith, List, [], ◌∷◌, ◌++◌, append_assoc,
  append-nil, length, length-append, le32, u8, lt→ltb,
}
use rtic_ecmaster.Config.{PdoCfg, EcPdoEntryInfo}
use rtic_ecmaster.Slave.{Mailbox}
use rtic_ecmaster.Coe.Seq.{
  SdoWrite, CoeSeq, new, push, sdo_write, pack, push_entries, build_mapping, max_seq,
}

push-ops :
    (seq : CoeSeq) (index subindex : ℕ) (bytes : List ℕ)
    → length seq.ops < max_seq
    → push seq index subindex bytes
      ≡ record seq { ops = seq.ops ++ (sdo_write index subindex bytes ∷ []) }
unfolding push
push-ops seq index subindex bytes h = rw (lt→ltb (length seq.ops) max_seq h) refl

-- The writes for the entries from number `i` on.
unfoldable pub entry_writes : ℕ → ℕ → List EcPdoEntryInfo → List SdoWrite
entry_writes obj i [] = []
entry_writes obj i (e ∷ es) =
    sdo_write obj (u8 (i + 1)) (le32 (pack e.index e.subindex e.bit_length))
    ∷ entry_writes obj (i + 1) es

push_entries-ops :
    (es : List EcPdoEntryInfo) (seq : CoeSeq) (obj i : ℕ)
    → length seq.ops + length es ≤ max_seq
    → push_entries seq obj i es ≡ record seq { ops = seq.ops ++ entry_writes obj i es }
unfolding push_entries entry_writes
push_entries-ops [] seq obj i h = ap (λ o. record seq { ops = o }) (sym (append-nil seq.ops))
push_entries-ops (e ∷ es) seq obj i h =
    let bytes = le32 (pack e.index e.subindex e.bit_length) in
    let next = record seq { ops = seq.ops ++ (sdo_write obj (u8 (i + 1)) bytes ∷ []) } in
    ap (λ s. push_entries s obj (i + 1) es) (push-ops seq obj (u8 (i + 1)) bytes (omega arith))
    ∙ push_entries-ops es next obj (i + 1)
        (omega (arith, length-append seq.ops (sdo_write obj (u8 (i + 1)) bytes ∷ [])))
    ∙ ap (λ o. record seq { ops = o })
        (append_assoc seq.ops (sdo_write obj (u8 (i + 1)) bytes ∷ []) (entry_writes obj (i + 1) es))

length-entry_writes :
    (es : List EcPdoEntryInfo) (obj i : ℕ) → length (entry_writes obj i es) ≡ length es
unfolding entry_writes
length-entry_writes [] obj i = refl
length-entry_writes (e ∷ es) obj i = ap suc (length-entry_writes es obj (i + 1))

-- The mapping of a PDO of at most 34 entries is written in full: the count is cleared, every entry
-- is written in order, and then the count is set.
pub build_mapping-ops :
    (mbox : Mailbox) (pdo : PdoCfg)
    → length pdo.entries ≤ 34
    → (build_mapping mbox pdo).ops
      ≡ sdo_write pdo.index 0 (0 ∷ [])
        ∷ (entry_writes pdo.index 0 pdo.entries
            ++ (sdo_write pdo.index 0 (u8 (length pdo.entries) ∷ []) ∷ []))
unfolding build_mapping
build_mapping-ops mbox pdo h =
    let first = record (new mbox) { ops = sdo_write pdo.index 0 (0 ∷ []) ∷ [] } in
    let count = u8 (length pdo.entries) ∷ [] in
    let entries = record first {
      ops = sdo_write pdo.index 0 (0 ∷ []) ∷ entry_writes pdo.index 0 pdo.entries;
    } in
    ap (λ (s : CoeSeq). s.ops)
      (ap (λ s. push (push_entries s pdo.index 0 pdo.entries) pdo.index 0 count)
          (push-ops (new mbox) pdo.index 0 (0 ∷ []) (omega arith))
        ∙ ap (λ s. push s pdo.index 0 count)
            (push_entries-ops pdo.entries first pdo.index 0 (omega arith))
        ∙ push-ops entries pdo.index 0 count
            (omega (arith, length-entry_writes pdo.entries pdo.index 0)))

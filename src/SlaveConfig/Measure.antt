-- ===== src/SlaveConfig/Measure.antt =====
-- How many calls the bring-up of a slave may still take.
use rtic_ecmaster.Base.{
  ℕ, zero, suc, ◌+◌, ◌-◌, ◌*◌, ◌≤◌, ◌<◌, ◌≡◌, arith, Option, none, some, List, [], ◌∷◌, length,
}
use rtic_ecmaster.Change.Ends as ChangeEnds
use rtic_ecmaster.Coe.Seq.Ends as SeqEnds
use rtic_ecmaster.Config.{SmCfg, SlaveCfg}
use rtic_ecmaster.Dc.Ends as DcEnds
use rtic_ecmaster.Exchange.Pending.{exchange_left}
use rtic_ecmaster.SlaveConfig.{
  Phase, clear_fmmus, dc_clear, mbox_sm0, mbox_sm1, to_preop, sdo_init, pdo_mapping, pdo_assign,
  pd_sm, watchdog_div, watchdog_time, fmmu, dc_cycle, to_safeop, done, FsmSlaveConfig,
}

-- The calls that a part may take, and those that are left to it.
abbrev pub change_calls : ℕ
change_calls = 4014012

abbrev pub seq_calls : ℕ
seq_calls = 74333370

abbrev pub dc_calls : ℕ
dc_calls = 22033

abbrev pub part_left : {A : Type 0} → (A → ℕ) → ℕ → Option A → ℕ
part_left measure calls none = calls
part_left measure calls (some x) = measure x

abbrev pub PartValid : {A : Type 0} → (A → Type 0) → (A → ℕ) → ℕ → Option A → Type 0
PartValid IsValid measure calls none = Unit {0}
PartValid IsValid measure calls (some x) = IsValid x × (measure x < calls)

-- The PDOs whose mapping is to be written, and the sync managers to be left behind.
abbrev pub mappings : List SmCfg → ℕ
mappings [] = 0
mappings (sm ∷ sms) = length sm.pdos + 1 + mappings sms

abbrev pub mappings_left : List SmCfg → ℕ → ℕ → ℕ
mappings_left [] i j = 0
mappings_left (sm ∷ sms) zero j = length sm.pdos - j + 1 + mappings sms
mappings_left (sm ∷ sms) (suc i) j = mappings_left sms i j

-- The parts that a bring-up has ahead of it in a phase.
abbrev pub parts_left : SlaveCfg → Phase → ℕ → ℕ → ℕ → ℕ
parts_left s done i j k = 0
parts_left s to_safeop i j k = 1
parts_left s dc_cycle i j k = 2
parts_left s fmmu i j k = 3 + (length s.fmmus - k)
parts_left s watchdog_time i j k = 4 + length s.fmmus
parts_left s watchdog_div i j k = 5 + length s.fmmus
parts_left s pd_sm i j k = 6 + length s.fmmus + (length s.sms - i)
parts_left s pdo_assign i j k = 7 + length s.fmmus + length s.sms + (length s.sms - i)
parts_left s pdo_mapping i j k = 8 + length s.fmmus + 2 * length s.sms + mappings_left s.sms i j
parts_left s sdo_init i j k = 9 + length s.fmmus + 2 * length s.sms + mappings s.sms
parts_left s to_preop i j k = 10 + length s.fmmus + 2 * length s.sms + mappings s.sms
parts_left s mbox_sm1 i j k = 11 + length s.fmmus + 2 * length s.sms + mappings s.sms
parts_left s mbox_sm0 i j k = 12 + length s.fmmus + 2 * length s.sms + mappings s.sms
parts_left s dc_clear i j k = 13 + length s.fmmus + 2 * length s.sms + mappings s.sms
parts_left s clear_fmmus i j k = 14 + length s.fmmus + 2 * length s.sms + mappings s.sms

abbrev pub calls_left : FsmSlaveConfig → ℕ
calls_left f =
    exchange_left f.link
    + part_left ChangeEnds.measure change_calls f.change
    + part_left SeqEnds.measure seq_calls f.seq
    + part_left DcEnds.measure dc_calls f.dc

-- The calls of a part are at most 78371417.
abbrev pub measure : FsmSlaveConfig → ℕ
measure f = parts_left f.slave f.phase f.sm_idx f.pdo_idx f.fmmu_idx * 78371418 + calls_left f

pub record IsValid (f : FsmSlaveConfig) : Type 0 where
  pub buffer : length f.link.tx ≡ 96
  pub few : exchange_left f.link ≤ 2002
  pub change : PartValid ChangeEnds.IsValid ChangeEnds.measure change_calls f.change
  pub seq : PartValid SeqEnds.IsValid SeqEnds.measure seq_calls f.seq
  pub dc : PartValid DcEnds.IsValid DcEnds.measure dc_calls f.dc

part_left-le :
    {A : Type 0} (V : A → Type 0) (measure : A → ℕ) (calls : ℕ) (x : Option A)
    → PartValid V measure calls x
    → part_left measure calls x ≤ calls
part_left-le V measure calls none v = omega arith
part_left-le V measure calls (some x) v = omega arith

pub calls_left-le : (f : FsmSlaveConfig) → IsValid f → calls_left f ≤ 78371417
calls_left-le f v = omega (
  arith,
  v.few,
  part_left-le ChangeEnds.IsValid ChangeEnds.measure change_calls f.change v.change,
  part_left-le SeqEnds.IsValid SeqEnds.measure seq_calls f.seq v.seq,
  part_left-le DcEnds.IsValid DcEnds.measure dc_calls f.dc v.dc,
)

-- A machine that got fewer parts ahead of it has fewer calls ahead of it.
pub fewer :
    (f f' : FsmSlaveConfig)
    → IsValid f'
    → parts_left f'.slave f'.phase f'.sm_idx f'.pdo_idx f'.fmmu_idx
      < parts_left f.slave f.phase f.sm_idx f.pdo_idx f.fmmu_idx
    → measure f' < measure f
fewer f f' v h = omega (arith, calls_left-le f' v)

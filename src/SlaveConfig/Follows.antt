-- ===== src/SlaveConfig/Follows.antt =====
-- What follows a part of the bring-up of a slave has fewer parts ahead.
use mathlib.Core.Path.{subst}
use rtic_ecmaster.Base.{
  ℕ, zero, suc, ◌+◌, ◌≤◌, ◌<◌, ◌≡◌, sym, arith, false, some, List, [], ◌∷◌, get_elem?, length, ok,
}
use rtic_ecmaster.Coe.Seq.{CoeSeq, push, build_mapping, build_assign, push_pdos, push_entries}
use rtic_ecmaster.Coe.Seq
use rtic_ecmaster.Config.{SmCfg}
use rtic_ecmaster.Exchange.Runs.{Good}
use rtic_ecmaster.SlaveConfig.{
  Phase, to_preop, sdo_init, pdo_mapping, pdo_assign, pd_sm, watchdog_time, fmmu, start_sdo_init,
  start_mapping, next_pdo, next_sm, start_fmmus, next_fmmu, finish, FsmSlaveConfig, goto, then_goto,
  push_all,
}
use rtic_ecmaster.Coe.Seq.Fresh.{Fresh-Valid, new-Fresh}
use rtic_ecmaster.SlaveConfig.Measure.{mappings, mappings_left, parts_left, measure, IsValid, fewer}
use rtic_ecmaster.SlaveConfig.Parts.{with_parts, Follows, push_all-Fresh}

-- A step into fewer parts ahead.
pub moved :
    (f g : FsmSlaveConfig)
    → IsValid g
    → parts_left g.slave g.phase g.sm_idx g.pdo_idx g.fmmu_idx
      < parts_left f.slave f.phase f.sm_idx f.pdo_idx f.fmmu_idx
    → Good IsValid measure (measure f) g (ok false)
moved f g v h = (λ e. cc, λ e. (v, fewer f g v h))

pub goto-Valid : (f : FsmSlaveConfig) (next : Phase) → IsValid f → IsValid (goto f next)
goto-Valid f next v = record {
  buffer = v.buffer;
  few = omega arith;
  change = v.change;
  seq = v.seq;
  dc = v.dc;
}

pub then_goto-Follows :
    (f : FsmSlaveConfig) (next : Phase)
    → parts_left f.slave next f.sm_idx f.pdo_idx f.fmmu_idx
      < parts_left f.slave f.phase f.sm_idx f.pdo_idx f.fmmu_idx
    → Follows f (then_goto next)
then_goto-Follows f next h x c s d v =
    moved f (goto (with_parts f x c s d) next) (goto-Valid (with_parts f x c s d) next v) h

pub start_sdo_init-Follows : (f : FsmSlaveConfig) → f.phase ≡ to_preop → Follows f start_sdo_init
start_sdo_init-Follows f at x c s d v =
    moved f (start_sdo_init (with_parts f x c s d)).0
      (record {
        buffer = v.buffer;
        few = omega arith;
        change = v.change;
        seq =
            Fresh-Valid (push_all (Seq.new f.mbox) f.slave.sdo_init)
              (push_all-Fresh (Seq.new f.mbox) f.slave.sdo_init (new-Fresh f.mbox));
        dc = v.dc;
      })
      (ground arith)

mappings_left-start : (sms : List SmCfg) → mappings_left sms 0 0 ≤ mappings sms
mappings_left-start [] = omega arith
mappings_left-start (sm ∷ sms) = omega arith

pub mappings_left-next_sm :
    (sms : List SmCfg) (i j : ℕ) (sm : SmCfg)
    → get_elem? sms i ≡ some sm
    → mappings_left sms (i + 1) 0 < mappings_left sms i j
mappings_left-next_sm [] i j sm e = absurd cc
mappings_left-next_sm (s ∷ sms) zero j sm e = omega (arith, mappings_left-start sms)
mappings_left-next_sm (s ∷ sms) (suc i) j sm e =
    let plus : suc i + 1 ≡ suc (i + 1) = omega arith in rw plus (mappings_left-next_sm sms i j sm e)

mappings_left-next_pdo :
    (sms : List SmCfg) (i j : ℕ) (sm : SmCfg)
    → get_elem? sms i ≡ some sm
    → j < length sm.pdos
    → mappings_left sms i (j + 1) < mappings_left sms i j
mappings_left-next_pdo [] i j sm e h = absurd cc
mappings_left-next_pdo (s ∷ sms) zero j sm e h =
    let same : s ≡ sm = cc in
    subst (λ k. mappings_left (k ∷ sms) 0 (j + 1) < mappings_left (k ∷ sms) 0 j) (sym same)
      (omega arith)
mappings_left-next_pdo (s ∷ sms) (suc i) j sm e h = mappings_left-next_pdo sms i j sm e h

pub start_mapping-Follows : (f : FsmSlaveConfig) → f.phase ≡ sdo_init → Follows f start_mapping
start_mapping-Follows f at x c s d v =
    moved f (start_mapping (with_parts f x c s d)).0
      (record { buffer = v.buffer; few = omega arith; change = v.change; seq = v.seq; dc = v.dc })
      (ground (arith, mappings_left-start f.slave.sms))

pub start_fmmus-Follows : (f : FsmSlaveConfig) → f.phase ≡ watchdog_time → Follows f start_fmmus
start_fmmus-Follows f at x c s d v =
    moved f (start_fmmus (with_parts f x c s d)).0
      (record { buffer = v.buffer; few = omega arith; change = v.change; seq = v.seq; dc = v.dc })
      (ground arith)

pub next_fmmu-Follows :
    (f : FsmSlaveConfig) → f.phase ≡ fmmu → f.fmmu_idx < length f.slave.fmmus → Follows f next_fmmu
next_fmmu-Follows f at more x c s d v =
    moved f (next_fmmu (with_parts f x c s d)).0
      (record { buffer = v.buffer; few = v.few; change = v.change; seq = v.seq; dc = v.dc })
      (ground arith)

pub finish-Follows : (f : FsmSlaveConfig) → Follows f finish
finish-Follows f x c s d v = (λ e. cc, λ e. cc)

pub next_sm-Follows_pd_sm :
    (f : FsmSlaveConfig) → f.phase ≡ pd_sm → f.sm_idx < length f.slave.sms → Follows f next_sm
next_sm-Follows_pd_sm f at more x c s d v =
    moved f (next_sm (with_parts f x c s d)).0
      (record { buffer = v.buffer; few = v.few; change = v.change; seq = v.seq; dc = v.dc })
      (ground arith)

pub next_sm-Follows_pdo_assign :
    (f : FsmSlaveConfig) → f.phase ≡ pdo_assign → f.sm_idx < length f.slave.sms → Follows f next_sm
next_sm-Follows_pdo_assign f at more x c s d v =
    moved f (next_sm (with_parts f x c s d)).0
      (record { buffer = v.buffer; few = v.few; change = v.change; seq = v.seq; dc = v.dc })
      (ground arith)

pub next_pdo-Follows :
    (f : FsmSlaveConfig) (sm : SmCfg)
    → f.phase ≡ pdo_mapping
    → get_elem? f.slave.sms f.sm_idx ≡ some sm
    → f.pdo_idx < length sm.pdos
    → Follows f next_pdo
next_pdo-Follows f sm at here more x c s d v =
    moved f (next_pdo (with_parts f x c s d)).0
      (record { buffer = v.buffer; few = v.few; change = v.change; seq = v.seq; dc = v.dc })
      (ground (arith, mappings_left-next_pdo f.slave.sms f.sm_idx f.pdo_idx sm here more))

-- ===== src/SlaveConfig.antt =====
-- src/ethercat/fsm_slave_config.rs: the bring-up of one slave from INIT to SAFE-OP.
pub mod Measure
pub mod Parts
pub mod Calls
pub mod Follows
pub mod Ends
pub mod Underway
pub mod Reached
use rtic_ecmaster.Base.{
  ℕ, ◌+◌, ◌*◌, Bool, true, false, Option, none, some, List, [], ◌∷◌, get_elem?, replicate,
  if◌then◌else◌, ◌==◌, le16, u16, Outcome, ok, err, panic, working_counter_mismatch,
}
use rtic_ecmaster.Change.{FsmChange}
use rtic_ecmaster.Change
use rtic_ecmaster.Coe.Seq.{CoeSeq, push, build_mapping, build_assign}
use rtic_ecmaster.Coe.Seq
use rtic_ecmaster.Config.{
  EcDirection, input, output, SmCfg, SdoInit, PdoCfg, FmmuCfg, DcCfg, SlaveCfg,
}
use rtic_ecmaster.Datagram.{Reply, fpwr}
use rtic_ecmaster.Dc.{DcRef, FsmDc, dc_activation_reg}
use rtic_ecmaster.Dc
use rtic_ecmaster.Device.{Enet}
use rtic_ecmaster.Exchange.{Exchange, Bus, exchange_new, rebuild, single, ask, answer}
use rtic_ecmaster.FmmuConfig
use rtic_ecmaster.Slave.{Mailbox}
use rtic_ecmaster.Sync

abbrev pub wd_divider_value : ℕ
wd_divider_value = 0x09C2

abbrev pub wd_pdata_value : ℕ
wd_pdata_value = 0x07D0

-- Registers and states of src/ethercat/globals.rs.
abbrev pub wd_divider_reg : ℕ
wd_divider_reg = 0x0400

abbrev pub wd_pdata_reg : ℕ
wd_pdata_reg = 0x0420

abbrev pub fmmu_base_reg : ℕ
fmmu_base_reg = 0x0600

abbrev pub sm0_reg : ℕ
sm0_reg = 0x0800

abbrev pub sm1_reg : ℕ
sm1_reg = 0x0808

abbrev pub preop : ℕ
preop = 0x02

abbrev pub safeop : ℕ
safeop = 0x04

pub data Phase : Type 0 where
  clear_fmmus dc_clear mbox_sm0 mbox_sm1 to_preop sdo_init pdo_mapping pdo_assign : Phase
  pd_sm watchdog_div watchdog_time fmmu dc_cycle to_safeop done : Phase

-- `FsmSlaveConfig`; `link` is its pump and buffers.
pub record FsmSlaveConfig : Type 0 where
  pub slave : SlaveCfg
  pub station : ℕ
  pub mbox : Mailbox
  pub dc_ref : DcRef
  pub phase : Phase
  pub link : Exchange
  pub change : Option FsmChange
  pub seq : Option CoeSeq
  pub dc : Option FsmDc
  pub sm_idx : ℕ
  pub pdo_idx : ℕ
  pub fmmu_idx : ℕ

-- `FsmSlaveConfig::new`
unfoldable pub new : ℕ → Mailbox → SlaveCfg → DcRef → FsmSlaveConfig
new station mbox slave dc_ref = record {
  slave = slave;
  station = station;
  mbox = mbox;
  dc_ref = dc_ref;
  phase = clear_fmmus;
  link = exchange_new 96 128;
  change = none;
  seq = none;
  dc = none;
  sm_idx = 0;
  pdo_idx = 0;
  fmmu_idx = 0;
}

abbrev pub put : FsmSlaveConfig → Exchange → FsmSlaveConfig
put f x = record f { link = x }

-- `goto`
abbrev pub goto : FsmSlaveConfig → Phase → FsmSlaveConfig
goto f next = record f { phase = next; link = rebuild f.link }

-- `if <part of the bring-up>? { <follow> } Ok(false)`
abbrev pub when {ℓ} :
    {F : Type ℓ} {B : Type 0} → F × B × Outcome Bool → (F → F × Outcome Bool) → F × B × Outcome Bool
when (f, bus, ok true) follow = let (f', o) = follow f in (f', bus, o)
when (f, bus, ok false) follow = (f, bus, ok false)
when (f, bus, err e) follow = (f, bus, err e)
when (f, bus, panic) follow = (f, bus, panic)

abbrev pub then_goto : Phase → FsmSlaveConfig → FsmSlaveConfig × Outcome Bool
then_goto next f = (goto f next, ok false)

unfoldable pub acked : FsmSlaveConfig → Reply → FsmSlaveConfig × Outcome Bool
acked f reply =
    if reply.working_counter == 1
    then (record f { link = rebuild f.link }, ok true)
    else (f, err working_counter_mismatch)

-- The change of state, and the sequence, that the next step works on.
abbrev pub change_of : FsmSlaveConfig → ℕ → Option FsmChange → FsmChange
change_of f target none = Change.new f.station target
change_of f target (some c) = c

abbrev pub dc_of : FsmSlaveConfig → DcCfg → Option FsmDc → FsmDc
dc_of f cfg none = Dc.new f.station cfg f.dc_ref
dc_of f cfg (some d) = d

abbrev pub seq_of : Option CoeSeq → CoeSeq → CoeSeq
seq_of none fresh = fresh
seq_of (some seq) fresh = seq

-- A part that answers `true` is dropped, and any other is kept.
abbrev pub kept {ℓ} : {A : Type ℓ} → A → Outcome Bool → Option A
kept x (ok true) = none
kept x (ok false) = some x
kept x (err e) = some x
kept x panic = some x

-- `seq.push` of every initial value.
abbrev pub push_all : CoeSeq → List SdoInit → CoeSeq
push_all seq [] = seq
push_all seq (sdo ∷ sdos) = push_all (push seq sdo.index sdo.subindex sdo.payload) sdos

abbrev pub sm_page : SmCfg → EcDirection → List ℕ
sm_page sm output = Sync.write_process_out sm.phys_start sm.size sm.control
sm_page sm input = Sync.write_process_in sm.phys_start sm.size sm.control

-- What follows a part that is complete.
abbrev pub start_sdo_init : FsmSlaveConfig → FsmSlaveConfig × Outcome Bool
start_sdo_init f =
    (goto (record f { seq = some (push_all (Seq.new f.mbox) f.slave.sdo_init) }) sdo_init, ok false)

abbrev pub start_mapping : FsmSlaveConfig → FsmSlaveConfig × Outcome Bool
start_mapping f = (goto (record f { sm_idx = 0; pdo_idx = 0 }) pdo_mapping, ok false)

abbrev pub next_pdo : FsmSlaveConfig → FsmSlaveConfig × Outcome Bool
next_pdo f = (record f { pdo_idx = f.pdo_idx + 1 }, ok false)

abbrev pub next_sm : FsmSlaveConfig → FsmSlaveConfig × Outcome Bool
next_sm f = (record f { sm_idx = f.sm_idx + 1 }, ok false)

abbrev pub start_fmmus : FsmSlaveConfig → FsmSlaveConfig × Outcome Bool
start_fmmus f = (goto (record f { fmmu_idx = 0 }) fmmu, ok false)

abbrev pub next_fmmu : FsmSlaveConfig → FsmSlaveConfig × Outcome Bool
next_fmmu f = (record f { fmmu_idx = f.fmmu_idx + 1 }, ok false)

abbrev pub finish : FsmSlaveConfig → FsmSlaveConfig × Outcome Bool
finish f = (record f { phase = done }, ok true)

module _ {S : Type 0} (nic : Enet S) where
  abbrev pub Step : Type 0
  Step = FsmSlaveConfig × Bus S × Outcome Bool

  -- `fpwr`
  unfoldable pub write : FsmSlaveConfig → Bus S → ℕ → List ℕ → Step
  write f bus ado payload =
      answer (ask nic (single fpwr f.station ado payload) f.link bus) (put f) false acked

  -- `run_change`
  unfoldable pub run_change : FsmSlaveConfig → Bus S → ℕ → Step
  run_change f bus target =
      let (c, bus', o) = Change.step nic (change_of f target f.change) bus in
      (record f { change = kept c o }, bus', o)

  -- `run_seq` on a sequence that is there.
  unfoldable pub run_seq : FsmSlaveConfig → Bus S → CoeSeq → Step
  run_seq f bus seq =
      let (seq', bus', o) = Seq.step nic seq bus in (record f { seq = kept seq' o }, bus', o)

  abbrev pub run_seq? : FsmSlaveConfig → Bus S → Option CoeSeq → Step
  run_seq? f bus none = (f, bus, ok true)
  run_seq? f bus (some seq) = run_seq f bus seq

  unfoldable pub run_dc : FsmSlaveConfig → Bus S → DcCfg → Step
  run_dc f bus cfg =
      let (d, bus', o) = Dc.step nic (dc_of f cfg f.dc) bus in (record f { dc = kept d o }, bus', o)

  -- `Phase::PdoMapping` and the phases behind it; an index past the end is the test of the source.
  abbrev pub map_pdo : FsmSlaveConfig → Bus S → Option PdoCfg → Step
  map_pdo f bus none = (record f { sm_idx = f.sm_idx + 1; pdo_idx = 0 }, bus, ok false)
  map_pdo f bus (some pdo) = when (run_seq f bus (seq_of f.seq (build_mapping f.mbox pdo))) next_pdo

  abbrev pub map_sm : FsmSlaveConfig → Bus S → Option SmCfg → Step
  map_sm f bus none = (goto (record f { sm_idx = 0 }) pdo_assign, bus, ok false)
  map_sm f bus (some sm) = map_pdo f bus (get_elem? sm.pdos f.pdo_idx)

  abbrev pub assign_sm : FsmSlaveConfig → Bus S → Option SmCfg → Step
  assign_sm f bus none = (goto (record f { sm_idx = 0 }) pd_sm, bus, ok false)
  assign_sm f bus (some sm) =
      when (run_seq f bus (seq_of f.seq (build_assign f.mbox sm.index sm.pdos))) next_sm

  abbrev pub write_sm : FsmSlaveConfig → Bus S → Option SmCfg → Step
  write_sm f bus none = (goto f watchdog_div, bus, ok false)
  write_sm f bus (some sm) =
      when (write f bus (u16 (sm0_reg + sm.index * Sync.page_size)) (sm_page sm sm.dir)) next_sm

  abbrev pub write_fmmu : FsmSlaveConfig → Bus S → Option FmmuCfg → Step
  write_fmmu f bus none = (goto f dc_cycle, bus, ok false)
  write_fmmu f bus (some cfg) =
      when
        (write f bus (u16 (fmmu_base_reg + f.fmmu_idx * FmmuConfig.page_size))
          (FmmuConfig.write_page cfg))
        next_fmmu

  abbrev pub cycle_dc : FsmSlaveConfig → Bus S → Option DcCfg → Step
  cycle_dc f bus none = (goto f to_safeop, bus, ok false)
  cycle_dc f bus (some cfg) = when (run_dc f bus cfg) (then_goto to_safeop)

  -- `step` in the given phase.
  unfoldable pub step_in : Phase → FsmSlaveConfig → Bus S → Step
  step_in clear_fmmus f bus = when (write f bus fmmu_base_reg (replicate 48 0)) (then_goto dc_clear)
  step_in dc_clear f bus = when (write f bus dc_activation_reg (replicate 2 0)) (then_goto mbox_sm0)
  step_in mbox_sm0 f bus =
      when (write f bus sm0_reg (Sync.write_mailbox_out f.mbox.rx_offset f.mbox.rx_size))
        (then_goto mbox_sm1)
  step_in mbox_sm1 f bus =
      when (write f bus sm1_reg (Sync.write_mailbox_in f.mbox.tx_offset f.mbox.tx_size))
        (then_goto to_preop)
  step_in to_preop f bus = when (run_change f bus preop) start_sdo_init
  step_in sdo_init f bus = when (run_seq? f bus f.seq) start_mapping
  step_in pdo_mapping f bus = map_sm f bus (get_elem? f.slave.sms f.sm_idx)
  step_in pdo_assign f bus = assign_sm f bus (get_elem? f.slave.sms f.sm_idx)
  step_in pd_sm f bus = write_sm f bus (get_elem? f.slave.sms f.sm_idx)
  step_in watchdog_div f bus =
      when (write f bus wd_divider_reg (le16 wd_divider_value)) (then_goto watchdog_time)
  step_in watchdog_time f bus = when (write f bus wd_pdata_reg (le16 wd_pdata_value)) start_fmmus
  step_in fmmu f bus = write_fmmu f bus (get_elem? f.slave.fmmus f.fmmu_idx)
  step_in dc_cycle f bus = cycle_dc f bus f.slave.dc
  step_in to_safeop f bus = when (run_change f bus safeop) finish
  step_in done f bus = (f, bus, ok true)

  -- `step`
  unfoldable pub step : FsmSlaveConfig → Bus S → Step
  step f bus = step_in f.phase f bus

-- ===== src/Master/Pre.antt =====
-- `PreOp` of src/ethercat/master.rs: a slave's way to a target state, with its mailbox configured
-- first where the target needs it.
pub mod Ends
use rtic_ecmaster.Base.{
  ℕ, ◌||◌, Bool, true, false, ◌==◌, if◌then◌else◌, List, Outcome, ok, err, working_counter_mismatch,
}
use rtic_ecmaster.Change.{FsmChange}
use rtic_ecmaster.Change
use rtic_ecmaster.Cyclic.{al_nibble, al_op}
use rtic_ecmaster.Datagram.{Reply, fpwr}
use rtic_ecmaster.Device.{Enet}
use rtic_ecmaster.Exchange.{Exchange, Bus, exchange_new, rebuild, single, ask, answer}
use rtic_ecmaster.Slave.{Mailbox, SlaveInfo}
use rtic_ecmaster.SlaveConfig.{preop, safeop, sm0_reg, sm1_reg}
use rtic_ecmaster.Sync

pub data PreStage : Type 0 where
  config_sm0 config_sm1 changing : PreStage

-- `PreOp`; `link` is its pump and buffers.
pub record PreOp : Type 0 where
  pub station : ℕ
  pub target : ℕ
  pub configure : Bool
  pub mbox : Mailbox
  pub stage : PreStage
  pub link : Exchange
  pub change : FsmChange

-- `PreOp::new`
unfoldable pub new : ℕ → Mailbox → ℕ → Bool → PreOp
new station mbox target configure = record {
  station = station;
  target = target;
  configure = configure;
  mbox = mbox;
  stage = config_sm0;
  link = exchange_new 64 128;
  change = Change.new station target;
}

-- `needs_mailbox`
unfoldable pub needs_mailbox : ℕ → Bool
needs_mailbox target = target == preop || target == safeop || target == al_op

-- `sdo_state`
unfoldable pub sdo_state : SlaveInfo → ℕ
sdo_state s = if needs_mailbox (al_nibble s.al_state) then al_nibble s.al_state else preop

abbrev pub put : PreOp → Exchange → PreOp
put f x = record f { link = x }

-- A page that was written, and the next stage.
unfoldable pub written : PreStage → PreOp → Reply → PreOp × Outcome Bool
written next f reply =
    if reply.working_counter == 1
    then (record f { stage = next; link = rebuild f.link }, ok false)
    else (f, err working_counter_mismatch)

module _ {S : Type 0} (nic : Enet S) where
  abbrev pub write_page : PreOp → Bus S → ℕ → List ℕ → PreStage → PreOp × Bus S × Outcome Bool
  write_page f bus ado page next =
      answer (ask nic (single fpwr f.station ado page) f.link bus) (put f) false (written next)

  -- `step` in the given stage.
  unfoldable pub step_in : PreStage → PreOp → Bus S → PreOp × Bus S × Outcome Bool
  step_in config_sm0 f bus =
      let write =
        write_page f bus sm0_reg (Sync.write_mailbox_out f.mbox.rx_offset f.mbox.rx_size)
          config_sm1 in
      if f.configure then write else (record f { stage = changing }, bus, ok false)
  step_in config_sm1 f bus =
      write_page f bus sm1_reg (Sync.write_mailbox_in f.mbox.tx_offset f.mbox.tx_size) changing
  step_in changing f bus =
      let (c, bus', o) = Change.step nic f.change bus in (record f { change = c }, bus', o)

  -- `step`
  unfoldable pub step : PreOp → Bus S → PreOp × Bus S × Outcome Bool
  step f bus = step_in f.stage f bus

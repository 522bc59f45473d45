-- ===== src/Change.antt =====
-- src/ethercat/fsm_change.rs: the AL state change of one slave.
pub mod Ends
pub mod Reached
use rtic_ecmaster.Base.{
  ℕ, ◌+◌, Bool, true, false, Option, none, some, List, [], ◌∷◌, ltb, leb, ◌==◌, if◌then◌else◌,
  length, byte_at, read_le16, set_bit, Outcome, ok, err, panic, EcError, working_counter_mismatch,
  state_change,
}
use rtic_ecmaster.Datagram.{Command, fpwr, fprd, Reply}
use rtic_ecmaster.Exchange.{Exchange, Bus, exchange_new, rebuild, single, ask, answer}
use rtic_ecmaster.Device.{Enet}
use rtic_ecmaster.Cyclic.{al_error, al_nibble}
use rtic_ecmaster.Cyclic.Send.{al_control_reg, al_status_reg}

-- MAX_STATE_WAITS
abbrev pub max_state_waits : ℕ
max_state_waits = 1000

abbrev pub al_status_code_reg : ℕ
al_status_code_reg = 0x0134

pub data State : Type 0 where
  write_control read_status ack_error read_status_code done : State

-- `FsmChange`; `link` is its pump and buffers.
pub record FsmChange : Type 0 where
  pub station : ℕ
  pub target : ℕ
  pub state : State
  pub link : Exchange
  pub waits : ℕ
  pub acked : Bool

-- `FsmChange::new`
unfoldable pub new : ℕ → ℕ → FsmChange
new station target = record {
  station = station;
  target = target;
  state = write_control;
  link = exchange_new 64 128;
  waits = 0;
  acked = false;
}

abbrev pub put : FsmChange → Exchange → FsmChange
put f x = record f { link = x }

-- The reply to the AL control write.
unfoldable pub controlled : FsmChange → Reply → FsmChange × Outcome Bool
controlled f reply =
    if reply.working_counter == 1
    then (record f { state = read_status; link = rebuild f.link; waits = 0 }, ok false)
    else (f, err working_counter_mismatch)

-- The reply to the AL status read, by the status byte.
unfoldable pub status_read : FsmChange → ℕ → FsmChange × Outcome Bool
status_read f status =
    let failed : FsmChange × Outcome Bool = (
      record f { link = rebuild f.link; state = if f.acked then read_status_code else ack_error },
      ok false,
    ) in
    let again = record f { link = rebuild f.link; waits = f.waits + 1 } in
    if al_error status
    then failed
    else if al_nibble status == f.target
    then (record f { state = done }, ok true)
    else (again, if leb max_state_waits (f.waits + 1) then err (state_change 0) else ok false)

unfoldable pub status_replied : FsmChange → Reply → FsmChange × Outcome Bool
status_replied f reply =
    if reply.working_counter == 1
    then status_read f (byte_at reply.payload 0)
    else (f, err working_counter_mismatch)

-- The reply to the acknowledging write.
unfoldable pub acknowledged : FsmChange → Reply → FsmChange × Outcome Bool
acknowledged f reply =
    if reply.working_counter == 1
    then (
      record f { acked = true; state = read_status; link = rebuild f.link; waits = 0 },
      ok false,
    )
    else (f, err working_counter_mismatch)

-- The reply to the AL status code read.
abbrev pub code_replied : FsmChange → Reply → FsmChange × Outcome Bool
code_replied f reply =
    (f, err (state_change (if leb 2 (length reply.payload) then read_le16 reply.payload 0 else 0)))

module _ {S : Type 0} (nic : Enet S) where
  -- One exchange of the machine.
  abbrev pub talk :
      FsmChange
      → Bus S
      → Command
      → ℕ
      → List ℕ
      → (FsmChange → Reply → FsmChange × Outcome Bool)
      → FsmChange × Bus S × Outcome Bool
  talk f bus cmd ado payload handle =
      answer (ask nic (single cmd f.station ado payload) f.link bus) (put f) false handle

  -- `step` in the given state. The AL states are bytes below 16, so that the acknowledge bit is a
  -- bit of the target that is not set, or stays set.
  unfoldable pub step_in : State → FsmChange → Bus S → FsmChange × Bus S × Outcome Bool
  step_in write_control f bus = talk f bus fpwr al_control_reg (f.target ∷ 0 ∷ []) controlled
  step_in read_status f bus = talk f bus fprd al_status_reg (0 ∷ 0 ∷ []) status_replied
  step_in ack_error f bus =
      talk f bus fpwr al_control_reg (set_bit f.target 4 ∷ 0 ∷ []) acknowledged
  step_in read_status_code f bus = talk f bus fprd al_status_code_reg (0 ∷ 0 ∷ []) code_replied
  step_in done f bus = (f, bus, ok true)

  -- `step`
  unfoldable pub step : FsmChange → Bus S → FsmChange × Bus S × Outcome Bool
  step f bus = step_in f.state f bus

-- ===== src/Master/Down.antt =====
-- `DownSeq` of src/ethercat/master.rs: the way of every cyclic slave down to PRE-OP.
pub mod Ends
use rtic_ecmaster.Base.{
  ℕ, ◌+◌, Bool, true, false, Option, none, some, List, leb, length, get_elem?, Outcome, ok, err,
  panic,
}
use rtic_ecmaster.Change.{FsmChange}
use rtic_ecmaster.Change
use rtic_ecmaster.Device.{Enet}
use rtic_ecmaster.Exchange.{Bus}
use rtic_ecmaster.SlaveConfig.{preop}

pub record DownSeq : Type 0 where
  pub stations : List ℕ
  pub idx : ℕ
  pub change : Option FsmChange

-- `DownSeq::new`
abbrev pub new : List ℕ → DownSeq
new stations = record { stations = stations; idx = 0; change = none }

abbrev pub current : ℕ → Option FsmChange → FsmChange
current station none = Change.new station preop
current station (some c) = c

-- The next station, and whether there is none.
abbrev pub next : DownSeq → DownSeq
next seq = record seq { change = none; idx = seq.idx + 1 }

-- The match on the step of the state change: an error skips the slave.
unfoldable pub advance :
    DownSeq → ℕ → FsmChange → Outcome Bool → DownSeq × Outcome (Bool × Option ℕ)
advance seq station c (ok false) = (record seq { change = some c }, ok (false, none))
advance seq station c (ok true) =
    (next seq, ok (leb (length seq.stations) (seq.idx + 1), some station))
advance seq station c (err e) = (next seq, ok (leb (length seq.stations) (seq.idx + 1), none))
advance seq station c panic = (seq, panic)

module _ {S : Type 0} (nic : Enet S) where
  unfoldable pub step_at : DownSeq → Bus S → ℕ → DownSeq × Bus S × Outcome (Bool × Option ℕ)
  step_at seq bus station =
      let (c, bus', o) = Change.step nic (current station seq.change) bus in
      let (seq', answer) = advance seq station c o in (seq', bus', answer)

  -- `DownSeq::step`: whether it is done, and the station that has just reached PRE-OP.
  unfoldable pub step : DownSeq → Bus S → DownSeq × Bus S × Outcome (Bool × Option ℕ)
  step seq bus = elim (get_elem? seq.stations seq.idx) [
    | none ↦ (seq, bus, ok (true, none))
    | some station ↦ step_at seq bus station
  ]

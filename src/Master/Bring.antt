-- ===== src/Master/Bring.antt =====
-- `ConfigSeq` of src/ethercat/master.rs: every configured slave is brought up to SAFE-OP in turn.
pub mod Ends
use rtic_ecmaster.Base.{
  ℕ, ◌+◌, not, Bool, true, false, Option, none, some, List, [], ◌∷◌, ◌++◌, ltb, leb, ◌==◌,
  if◌then◌else◌, length, get_elem?, Outcome, ok, err, panic, no_such_slave,
}
use rtic_ecmaster.Config.{BusCfg, SlaveCfg}
use rtic_ecmaster.Cyclic.{CyclicSlave, max_slaves}
use rtic_ecmaster.Dc.{DcRef, reference}
use rtic_ecmaster.Device.{Enet}
use rtic_ecmaster.Exchange.{Bus}
use rtic_ecmaster.Slave.{SlaveInfo, mailbox}
use rtic_ecmaster.SlaveConfig.{FsmSlaveConfig}
use rtic_ecmaster.SlaveConfig

pub record ConfigSeq : Type 0 where
  pub idx : ℕ
  pub fsm : Option FsmSlaveConfig
  pub ready : List CyclicSlave

-- `ConfigSeq::new`
abbrev pub new : ConfigSeq
new = record { idx = 0; fsm = none; ready = [] }

-- `slaves.iter().find(|s| s.ring_pos == position)`
unfoldable pub find_slave : List SlaveInfo → ℕ → Option SlaveInfo
find_slave [] position = none
find_slave (s ∷ ss) position =
    let rest = find_slave ss position in if s.ring_pos == position then some s else rest

-- The reference clock as a slave's bring-up sees it.
abbrev pub dc_ref_of : Option SlaveInfo → SlaveInfo → DcRef
dc_ref_of none info = reference
dc_ref_of (some r) info =
    if not (r.station_addr == info.station_addr)
    then record { ref_station = r.station_addr; compensate = true }
    else reference

abbrev pub cyclic_slave : SlaveInfo → CyclicSlave
cyclic_slave info = record { station = info.station_addr; ring_pos = info.ring_pos }

-- `self.ready.push`, whose error is dropped.
abbrev pub push_ready : List CyclicSlave → CyclicSlave → List CyclicSlave
push_ready ready s = if ltb (length ready) max_slaves then ready ++ (s ∷ []) else ready

-- `self.fsm = Some(…)` for a slave that the scan has found.
unfoldable pub start : BusCfg → List SlaveInfo → SlaveCfg → SlaveInfo → FsmSlaveConfig
start cfg slaves slave info =
    SlaveConfig.new info.station_addr (mailbox info) slave
      (dc_ref_of (find_slave slaves cfg.ref_clock_slave) info)

-- What the sequence makes of a step of its bring-up.
unfoldable pub advance :
    BusCfg → ConfigSeq → FsmSlaveConfig → Outcome Bool → ConfigSeq × Outcome Bool
advance cfg seq f (ok true) =
    (record seq { fsm = none; idx = seq.idx + 1 }, ok (leb (length cfg.slaves) (seq.idx + 1)))
advance cfg seq f (ok false) = (record seq { fsm = some f }, ok (leb (length cfg.slaves) seq.idx))
advance cfg seq f (err e) = (record seq { fsm = some f }, err e)
advance cfg seq f panic = (record seq { fsm = some f }, panic)

module _ {S : Type 0} (nic : Enet S) (cfg : BusCfg) where
  unfoldable pub step_fsm : ConfigSeq → FsmSlaveConfig → Bus S → ConfigSeq × Bus S × Outcome Bool
  step_fsm seq f bus =
      let (f', bus', o) = SlaveConfig.step nic f bus in
      let (seq', o') = advance cfg seq f' o in (seq', bus', o')

  -- The first step on a slave, which the scan must have found.
  abbrev pub begin :
      List SlaveInfo
      → ConfigSeq
      → SlaveCfg
      → Option SlaveInfo
      → Bus S
      → ConfigSeq × Bus S × Outcome Bool
  begin slaves seq slave none bus = (seq, bus, err no_such_slave)
  begin slaves seq slave (some info) bus =
      step_fsm (record seq { ready = push_ready seq.ready (cyclic_slave info) })
        (start cfg slaves slave info) bus

  abbrev pub step_on :
      List SlaveInfo
      → ConfigSeq
      → SlaveCfg
      → Option FsmSlaveConfig
      → Bus S
      → ConfigSeq × Bus S × Outcome Bool
  step_on slaves seq slave none bus = begin slaves seq slave (find_slave slaves slave.position) bus
  step_on slaves seq slave (some f) bus = step_fsm seq f bus

  -- `ConfigSeq::step`
  unfoldable pub step : List SlaveInfo → ConfigSeq → Bus S → ConfigSeq × Bus S × Outcome Bool
  step slaves seq bus = elim (get_elem? cfg.slaves seq.idx) [
    | none ↦ (seq, bus, ok true)
    | some slave ↦ step_on slaves seq slave seq.fsm bus
  ]

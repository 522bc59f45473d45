-- ===== src/Master.antt =====
-- src/ethercat/master.rs: the master's requests, and the operations that carry them out one datagram
-- at a time. The bus tables are a parameter; the progress lines of the scan are left out.
pub mod Down
pub mod Pre
pub mod Bring
pub mod Requests
pub mod Completes
use rtic_ecmaster.Base.{
  ℕ, zero, suc, ◌+◌, min, Bool, true, false, Option, none, some, List, [], ◌∷◌, ◌++◌, map, ltb, leb,
  ◌==◌, if◌then◌else◌, length, take, get_elem?, Outcome, ok, err, panic, ok_or, no_such_slave,
  coe_unsupported, overwrite, replicate,
}
use rtic_ecmaster.Config.{BusCfg}
use rtic_ecmaster.Cyclic.{Cyclic, CyclicSlave, SlaveRt, al_nibble}
use rtic_ecmaster.Cyclic
use rtic_ecmaster.Coe.{FsmCoe, new_upload, new_download, response}
use rtic_ecmaster.Coe
use rtic_ecmaster.Device.{Enet, Device}
use rtic_ecmaster.Exchange.{Bus}
use rtic_ecmaster.Slave.{SlaveInfo, Mailbox, mailbox}
use rtic_ecmaster.SlaveConfig.{preop, safeop}
use rtic_ecmaster.Scan.{ScanFsm, drain}
use rtic_ecmaster.Scan
use rtic_ecmaster.Master.Down.{DownSeq}
use rtic_ecmaster.Master.Down
use rtic_ecmaster.Master.Pre.{PreOp, needs_mailbox, sdo_state}
use rtic_ecmaster.Master.Pre
use rtic_ecmaster.Master.Bring.{ConfigSeq}
use rtic_ecmaster.Master.Bring

pub data Request : Type 0 where
  rescan stop_cyclic : Request
  set_state : (slave target : ℕ) → Request
  sdo_upload : (slave index subindex : ℕ) → Request
  sdo_download : (slave index subindex : ℕ) (bytes : List ℕ) (len : ℕ) → Request
  start_cyclic : (cycle_ns : ℕ) → Request

-- `Outcome` of the source.
pub data Completion : Type 0 where
  rescanned : ℕ → Completion
  state_reached : ℕ → Completion
  sdo_uploaded : ℕ → Completion
  sdo_downloaded cyclic_started cyclic_stopped : Completion

pub data SdoOp : Type 0 where
  upload_of : (index subindex : ℕ) → SdoOp
  download_of : (index subindex : ℕ) (bytes : List ℕ) (len : ℕ) → SdoOp

pub data Op : Type 0 where
  scanning : ScanFsm → Op
  changing : PreOp → Op
  sdo : (slave : ℕ) → PreOp → Option FsmCoe → SdoOp → Op
  starting : ConfigSeq → (cycle_ns : ℕ) → Op
  stopping : DownSeq → Op

-- `Master`
pub record Master (S : Type 0) : Type 0 where
  pub device : Device S
  pub slaves : List SlaveInfo
  pub index : ℕ
  pub op : Option Op
  pub sdo_buf : List ℕ
  pub sdo_len : ℕ
  pub cyclic : Option Cyclic

-- `Master::new`
abbrev pub new : {S : Type 0} → Device S → Master S
new device = record {
  device = device;
  slaves = [];
  index = 0;
  op = none;
  sdo_buf = replicate 4 0;
  sdo_len = 0;
  cyclic = none;
}

-- `SdoOp::build`; a download of more than the four bytes panics.
abbrev pub build_sdo : SdoOp → Mailbox → Outcome FsmCoe
build_sdo (upload_of index subindex) mbox = ok (new_upload mbox index subindex)
build_sdo (download_of index subindex bytes len) mbox =
    if leb len (length bytes) then ok (new_download mbox index subindex (take len bytes)) else panic

-- `update_state`
unfoldable pub update_state : List SlaveInfo → ℕ → ℕ → List SlaveInfo
update_state [] station target = []
update_state (s ∷ ss) station target =
    (if s.station_addr == station then record s { al_state = al_nibble target } else s)
    ∷ update_state ss station target

-- `for cs in seq.ready.iter()`
unfoldable pub update_ready : List SlaveInfo → List CyclicSlave → List SlaveInfo
update_ready slaves [] = slaves
update_ready slaves (cs ∷ ready) = update_ready (update_state slaves cs.station safeop) ready

-- `Cyclic::stations` of src/ethercat/cyclic.rs.
abbrev pub stations : Option Cyclic → List ℕ
stations none = []
stations (some c) = map (λ (s : SlaveRt). s.station) c.slaves

-- The `Op` of an SDO request, for a slave with CoE.
abbrev pub sdo_begin : ℕ → SdoOp → Outcome SlaveInfo → Outcome Op
sdo_begin slave request (ok s) =
    if s.supports_coe
    then ok (sdo slave (Pre.new s.station_addr (mailbox s) (sdo_state s) true) none request)
    else err coe_unsupported
sdo_begin slave request (err e) = err e
sdo_begin slave request panic = panic

abbrev pub state_begin : ℕ → Outcome SlaveInfo → Outcome Op
state_begin target (ok s) =
    ok (changing (Pre.new s.station_addr (mailbox s) target (needs_mailbox target)))
state_begin target (err e) = err e
state_begin target panic = panic

-- `slave_copy`
abbrev pub slave_copy : List SlaveInfo → ℕ → Outcome SlaveInfo
slave_copy slaves slave = ok_or (get_elem? slaves slave) no_such_slave

-- What `drive` gives: the master, the operation, and the completion, if any.
abbrev pub Driven : Type 0 → Type 0
Driven S = Master S × Op × Outcome (Option Completion)

abbrev pub sdo_mailbox : SdoOp → Outcome SlaveInfo → Outcome FsmCoe
sdo_mailbox request (ok s) = build_sdo request (mailbox s)
sdo_mailbox request (err e) = err e
sdo_mailbox request panic = panic

module _ {S : Type 0} where
  -- The match of `begin`.
  unfoldable pub op_of : Master S → Request → Outcome Op
  op_of m rescan = ok (scanning Scan.new)
  op_of m (set_state slave target) = state_begin target (slave_copy m.slaves slave)
  op_of m (sdo_upload slave index subindex) =
      sdo_begin slave (upload_of index subindex) (slave_copy m.slaves slave)
  op_of m (sdo_download slave index subindex bytes len) =
      sdo_begin slave (download_of index subindex bytes len) (slave_copy m.slaves slave)
  op_of m (start_cyclic cycle_ns) =
      if length m.slaves == 0 then err no_such_slave else ok (starting Bring.new cycle_ns)
  op_of m stop_cyclic = ok (stopping (Down.new (stations m.cyclic)))

  -- `self.slaves.clear()` of a rescan.
  abbrev pub clear_for : Request → Master S → Master S
  clear_for rescan m = record m { slaves = [] }
  clear_for (set_state slave target) m = m
  clear_for (sdo_upload slave index subindex) m = m
  clear_for (sdo_download slave index subindex bytes len) m = m
  clear_for (start_cyclic cycle_ns) m = m
  clear_for stop_cyclic m = m

  abbrev pub begun : Master S → Outcome Op → Master S × Outcome (Unit {0})
  begun m (ok op) = (record m { op = some op }, ok tt)
  begun m (err e) = (m, err e)
  begun m panic = (m, panic)

  -- `begin`
  unfoldable pub begin : Master S → Request → Master S × Outcome (Unit {0})
  begin m request = begun (clear_for request m) (op_of m request)

  abbrev pub bus_of : Master S → Bus S
  bus_of m = record { dev = m.device; index = m.index }

  abbrev pub with_bus : Master S → Bus S → Master S
  with_bus m bus = record m { device = bus.dev; index = bus.index }

  abbrev pub scanned : Master S → ScanFsm → Outcome Bool → Driven S
  scanned m f (ok finished) =
      let (f', slaves) = drain (ok finished) f m.slaves in
      (
        record m { slaves = slaves },
        scanning f',
        ok (if finished then some (rescanned (length slaves)) else none),
      )
  scanned m f (err e) = (m, scanning f, err e)
  scanned m f panic = (m, scanning f, panic)

  abbrev pub changed : Master S → PreOp → Outcome Bool → Driven S
  changed m pre (ok true) = (
    record m { slaves = update_state m.slaves pre.station pre.target },
    changing pre,
    ok (some (state_reached pre.target)),
  )
  changed m pre (ok false) = (m, changing pre, ok none)
  changed m pre (err e) = (m, changing pre, err e)
  changed m pre panic = (m, changing pre, panic)

  abbrev pub sdo_built : Master S → ℕ → PreOp → SdoOp → Outcome FsmCoe → Driven S
  sdo_built m slave pre request (ok f) = (m, sdo slave pre (some f) request, ok none)
  sdo_built m slave pre request (err e) = (m, sdo slave pre none request, err e)
  sdo_built m slave pre request panic = (m, sdo slave pre none request, panic)

  abbrev pub sdo_prepared : Master S → ℕ → PreOp → SdoOp → Outcome Bool → Driven S
  sdo_prepared m slave pre request (ok true) =
      let m' = record m { slaves = update_state m.slaves pre.station pre.target } in
      sdo_built m' slave pre request (sdo_mailbox request (slave_copy m'.slaves slave))
  sdo_prepared m slave pre request (ok false) = (m, sdo slave pre none request, ok none)
  sdo_prepared m slave pre request (err e) = (m, sdo slave pre none request, err e)
  sdo_prepared m slave pre request panic = (m, sdo slave pre none request, panic)

  -- The end of a transfer: an upload leaves its bytes in `sdo_buf`.
  abbrev pub sdo_done : Master S → FsmCoe → SdoOp → Master S × Completion
  sdo_done m f (upload_of index subindex) =
      let n = min (length (response f)) 4 in
      (
        record m { sdo_buf = overwrite m.sdo_buf 0 (take n (response f)); sdo_len = n },
        sdo_uploaded n,
      )
  sdo_done m f (download_of index subindex bytes len) = (m, sdo_downloaded)

  abbrev pub sdo_transferred : Master S → ℕ → PreOp → FsmCoe → SdoOp → Outcome Bool → Driven S
  sdo_transferred m slave pre f request (ok true) =
      let (m', completion) = sdo_done m f request in
      (m', sdo slave pre (some f) request, ok (some completion))
  sdo_transferred m slave pre f request (ok false) = (m, sdo slave pre (some f) request, ok none)
  sdo_transferred m slave pre f request (err e) = (m, sdo slave pre (some f) request, err e)
  sdo_transferred m slave pre f request panic = (m, sdo slave pre (some f) request, panic)

  abbrev pub brought_up : BusCfg → Master S → ConfigSeq → ℕ → Outcome Bool → Driven S
  brought_up cfg m seq cycle_ns (ok true) = (
    record m {
      slaves = update_ready m.slaves seq.ready;
      cyclic = some (Cyclic.new cfg seq.ready cfg.ref_clock_slave cycle_ns);
    },
    starting seq cycle_ns,
    ok (some cyclic_started),
  )
  brought_up cfg m seq cycle_ns (ok false) = (m, starting seq cycle_ns, ok none)
  brought_up cfg m seq cycle_ns (err e) = (m, starting seq cycle_ns, err e)
  brought_up cfg m seq cycle_ns panic = (m, starting seq cycle_ns, panic)

  abbrev pub reached_preop : Master S → Option ℕ → Master S
  reached_preop m none = m
  reached_preop m (some station) = record m { slaves = update_state m.slaves station preop }

  abbrev pub went_down : Master S → DownSeq → Outcome (Bool × Option ℕ) → Driven S
  went_down m down (ok (true, reached)) =
      (record (reached_preop m reached) { cyclic = none }, stopping down, ok (some cyclic_stopped))
  went_down m down (ok (false, reached)) = (reached_preop m reached, stopping down, ok none)
  went_down m down (err e) = (m, stopping down, err e)
  went_down m down panic = (m, stopping down, panic)

  -- `poll_op`: the completion or the error of the operation, if it has come to its end.
  abbrev pub polled : Driven S → Master S × Option (Outcome Completion)
  polled (m, op, ok none) = (record m { op = some op }, none)
  polled (m, op, ok (some c)) = (record m { op = none }, some (ok c))
  polled (m, op, err e) = (record m { op = none }, some (err e))
  polled (m, op, panic) = (record m { op = none }, some panic)

  module _ (nic : Enet S) (cfg : BusCfg) where
    -- `drive`
    unfoldable pub drive : Master S → Op → Driven S
    drive m (scanning f) =
        let (f', bus, o) = Scan.step nic f (bus_of m) in scanned (with_bus m bus) f' o
    drive m (changing pre) =
        let (pre', bus, o) = Pre.step nic pre (bus_of m) in changed (with_bus m bus) pre' o
    drive m (sdo slave pre none request) =
        let (pre', bus, o) = Pre.step nic pre (bus_of m) in
        sdo_prepared (with_bus m bus) slave pre' request o
    drive m (sdo slave pre (some f) request) =
        let (f', bus, o) = Coe.step nic f (bus_of m) in
        sdo_transferred (with_bus m bus) slave pre f' request o
    drive m (starting seq cycle_ns) =
        let (seq', bus, o) = Bring.step nic cfg m.slaves seq (bus_of m) in
        brought_up cfg (with_bus m bus) seq' cycle_ns o
    drive m (stopping down) =
        let (down', bus, o) = Down.step nic down (bus_of m) in went_down (with_bus m bus) down' o

    abbrev pub poll_with : Master S → Option Op → Master S × Option (Outcome Completion)
    poll_with m none = (m, none)
    poll_with m (some op) = polled (drive m op)

    unfoldable pub poll_op : Master S → Master S × Option (Outcome Completion)
    poll_op m = poll_with m m.op

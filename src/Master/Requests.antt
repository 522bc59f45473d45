-- ===== src/Master/Requests.antt =====
-- Every request comes to its end.
use rtic_ecmaster.Base.{
  ℕ, ◌+◌, min, le→leb, replicate, ◌≤◌, ◌<◌, ◌≡◌, ◌≢◌, inl, inr, refl, arith, Bool, true, false,
  Option, none, some, Option-cases, List, length, Outcome, ok, err, panic, take, get_elem?,
}
use rtic_ecmaster.Config.{BusCfg}
use rtic_ecmaster.Coe.{FsmCoe, new_upload, new_download, four_bytes, upload, download}
use rtic_ecmaster.Coe
use rtic_ecmaster.Coe.Ends as CoeEnds
use rtic_ecmaster.Device.{Enet}
use rtic_ecmaster.Exchange.Runs.{Good}
use rtic_ecmaster.Slave.{SlaveInfo, mailbox}
use rtic_ecmaster.Scan.{ScanFsm, drain}
use rtic_ecmaster.Scan
use rtic_ecmaster.Scan.Measure as ScanMeasure
use rtic_ecmaster.Scan.Ends as ScanEnds
use rtic_ecmaster.Master.Down.{DownSeq}
use rtic_ecmaster.Master.Down
use rtic_ecmaster.Master.Down.Ends as DownEnds
use rtic_ecmaster.Master.Pre.{PreOp}
use rtic_ecmaster.Master.Pre
use rtic_ecmaster.Master.Pre.Ends as PreEnds
use rtic_ecmaster.Master.Bring.{ConfigSeq}
use rtic_ecmaster.Master.Bring
use rtic_ecmaster.Master.Bring.Ends as BringEnds
use rtic_ecmaster.Master.{
  SdoOp, upload_of, download_of, Op, scanning, changing, sdo, starting, stopping, Master,
  slave_copy, sdo_mailbox, update_state, bus_of, with_bus, scanned, changed, sdo_built,
  sdo_prepared, sdo_transferred, brought_up, went_down, drive, Driven,
}

-- A download's bytes are there.
abbrev pub SdoValid : SdoOp → Type 0
SdoValid (upload_of index subindex) = Unit {0}
SdoValid (download_of index subindex bytes len) = len ≤ length bytes

abbrev pub OpValid : Op → Type 0
OpValid (scanning f) = ScanMeasure.IsValid f
OpValid (changing pre) = PreEnds.IsValid pre
OpValid (sdo slave pre none request) = PreEnds.IsValid pre × SdoValid request
OpValid (sdo slave pre (some f) request) = CoeEnds.IsValid f × SdoValid request
OpValid (starting seq cycle_ns) = BringEnds.IsValid seq
OpValid (stopping down) = DownEnds.IsValid down

-- The calls that an operation may still take.
abbrev pub op_left : BusCfg → Op → ℕ
op_left cfg (scanning f) = ScanMeasure.measure f
op_left cfg (changing pre) = PreEnds.measure pre
op_left cfg (sdo slave pre none request) = PreEnds.measure pre + 2009010
op_left cfg (sdo slave pre (some f) request) = CoeEnds.measure f
op_left cfg (starting seq cycle_ns) = BringEnds.measure cfg seq
op_left cfg (stopping down) = DownEnds.measure down

-- What a step of an operation must give.
abbrev pub Drives : {S : Type 0} → BusCfg → ℕ → Driven S → Type 0
Drives cfg before (m, op, o) = (o ≢ panic) × (o ≡ ok none → OpValid op × (op_left cfg op < before))

module _ {S : Type 0} (cfg : BusCfg) (m : Master S) where
  scanned-Drives :
      (f : ScanFsm) (o : Outcome Bool) (before : ℕ)
      → Good ScanMeasure.IsValid ScanMeasure.measure before f o
      → Drives cfg before (scanned m f o)
  scanned-Drives f (ok true) before good = (λ e. cc, λ e. cc)
  scanned-Drives f (ok false) before good =
      let (v, less) = good.1 refl in
      (
        λ e. cc,
        λ e. (
          record { buffer = v.buffer; few_slaves = v.few_slaves; few_polls = v.few_polls },
          kept f before less,
        ),
      )
    where
      kept :
          (f : ScanFsm) (before : ℕ)
          → ScanMeasure.measure f < before
          → ScanMeasure.measure (record f { completed = none }) < before
      kept f before less = ground arith
  scanned-Drives f (err er) before good = (λ e. cc, λ e. cc)
  scanned-Drives f panic before good = absurd (good.0 refl)

  changed-Drives :
      (pre : PreOp) (o : Outcome Bool) (before : ℕ)
      → Good PreEnds.IsValid PreEnds.measure before pre o
      → Drives cfg before (changed m pre o)
  changed-Drives pre (ok true) before good = (λ e. cc, λ e. cc)
  changed-Drives pre (ok false) before good = (λ e. cc, λ e. good.1 refl)
  changed-Drives pre (err er) before good = (λ e. cc, λ e. cc)
  changed-Drives pre panic before good = absurd (good.0 refl)

  brought_up-Drives :
      (seq : ConfigSeq) (cycle_ns : ℕ) (o : Outcome Bool) (before : ℕ)
      → Good BringEnds.IsValid (BringEnds.measure cfg) before seq o
      → Drives cfg before (brought_up cfg m seq cycle_ns o)
  brought_up-Drives seq cycle_ns (ok true) before good = (λ e. cc, λ e. cc)
  brought_up-Drives seq cycle_ns (ok false) before good = (λ e. cc, λ e. good.1 refl)
  brought_up-Drives seq cycle_ns (err er) before good = (λ e. cc, λ e. cc)
  brought_up-Drives seq cycle_ns panic before good = absurd (good.0 refl)

  went_down-Drives :
      (down : DownSeq) (o : Outcome (Bool × Option ℕ)) (before : ℕ)
      → Good DownEnds.IsValid DownEnds.measure before down (DownEnds.is_done o)
      → Drives cfg before (went_down m down o)
  went_down-Drives down (ok (true, reached)) before good = (λ e. cc, λ e. cc)
  went_down-Drives down (ok (false, reached)) before good = (λ e. cc, λ e. good.1 refl)
  went_down-Drives down (err er) before good = (λ e. cc, λ e. cc)
  went_down-Drives down panic before good = absurd (good.0 refl)

  sdo_transferred-Drives :
      (slave : ℕ) (pre : PreOp) (f : FsmCoe) (request : SdoOp) (o : Outcome Bool) (before : ℕ)
      → SdoValid request
      → Good CoeEnds.IsValid CoeEnds.measure before f o
      → Drives cfg before (sdo_transferred m slave pre f request o)
  sdo_transferred-Drives slave pre f request (ok true) before v good = (λ e. cc, λ e. cc)
  sdo_transferred-Drives slave pre f request (ok false) before v good =
      (λ e. cc, λ e. (((good.1 refl).0, v), (good.1 refl).1))
  sdo_transferred-Drives slave pre f request (err er) before v good = (λ e. cc, λ e. cc)
  sdo_transferred-Drives slave pre f request panic before v good = absurd (good.0 refl)

  sdo_built-Drives :
      (slave : ℕ) (pre : PreOp) (request : SdoOp) (r : Outcome SlaveInfo) (before : ℕ)
      → SdoValid request
      → r ≢ panic
      → 2009008 < before
      → Drives cfg before (sdo_built m slave pre request (sdo_mailbox request r))
  sdo_built-Drives slave pre (upload_of index subindex) (ok s) before v h less =
      let (valid, size) = CoeEnds.new-IsValid (mailbox s) upload index subindex (replicate 4 0) 0 in
      (λ e. cc, λ e. ((valid, tt), omega (arith, size)))
  sdo_built-Drives slave pre (download_of index subindex bytes len) (ok s) before v h less =
      let (valid, size) =
        CoeEnds.new-IsValid (mailbox s) download index subindex (four_bytes (take len bytes))
          (min (length (take len bytes)) 4) in
      rw (le→leb len (length bytes) v) (λ e. cc, λ e. ((valid, v), omega (arith, size)))
  sdo_built-Drives slave pre (upload_of index subindex) (err er) before v h less =
      (λ e. cc, λ e. cc)
  sdo_built-Drives slave pre (download_of index subindex bytes len) (err er) before v h less =
      (λ e. cc, λ e. cc)
  sdo_built-Drives slave pre request panic before v h less = absurd (h refl)

slave_copy-ne-panic : (slaves : List SlaveInfo) (slave : ℕ) → slave_copy slaves slave ≢ panic
slave_copy-ne-panic slaves slave = elim (Option-cases (get_elem? slaves slave)) [
  | inl e ↦ rw e (λ p. cc)
  | inr (s, e) ↦ rw e (λ p. cc)
]

sdo_prepared-Drives :
    {S : Type 0} (cfg : BusCfg) (m : Master S) (slave : ℕ) (pre : PreOp) (request : SdoOp)
    (o : Outcome Bool) (before : ℕ)
    → SdoValid request
    → Good PreEnds.IsValid PreEnds.measure before pre o
    → Drives cfg (before + 2009010) (sdo_prepared m slave pre request o)
sdo_prepared-Drives cfg m slave pre request (ok true) before v good =
    let slaves = update_state m.slaves pre.station pre.target in
    sdo_built-Drives cfg (record m { slaves = slaves }) slave pre request (slave_copy slaves slave)
      (before + 2009010) v (slave_copy-ne-panic slaves slave) (omega arith)
sdo_prepared-Drives cfg m slave pre request (ok false) before v good =
    (λ e. cc, λ e. (((good.1 refl).0, v), omega (arith, (good.1 refl).1)))
sdo_prepared-Drives cfg m slave pre request (err er) before v good = (λ e. cc, λ e. cc)
sdo_prepared-Drives cfg m slave pre request panic before v good = absurd (good.0 refl)

module _ {S : Type 0} (nic : Enet S) (cfg : BusCfg) where
  pub drive-Drives :
      (m : Master S) (op : Op) → OpValid op → Drives cfg (op_left cfg op) (drive nic cfg m op)
  unfolding drive
  drive-Drives m (scanning f) v =
      let r = Scan.step nic f (bus_of m) in
      scanned-Drives cfg (with_bus m r.1) r.0 r.2 (ScanMeasure.measure f)
        (ScanEnds.step-Good nic f (bus_of m) v)
  drive-Drives m (changing pre) v =
      let r = Pre.step nic pre (bus_of m) in
      changed-Drives cfg (with_bus m r.1) r.0 r.2 (PreEnds.measure pre)
        (PreEnds.step-Good nic pre (bus_of m) v)
  drive-Drives m (sdo slave pre none request) v =
      let r = Pre.step nic pre (bus_of m) in
      sdo_prepared-Drives cfg (with_bus m r.1) slave r.0 request r.2 (PreEnds.measure pre) v.1
        (PreEnds.step-Good nic pre (bus_of m) v.0)
  drive-Drives m (sdo slave pre (some f) request) v =
      let r = Coe.step nic f (bus_of m) in
      sdo_transferred-Drives cfg (with_bus m r.1) slave pre r.0 request r.2 (CoeEnds.measure f) v.1
        (CoeEnds.step-Good nic f (bus_of m) v.0)
  drive-Drives m (starting seq cycle_ns) v =
      let r = Bring.step nic cfg m.slaves seq (bus_of m) in
      brought_up-Drives cfg (with_bus m r.1) r.0 cycle_ns r.2 (BringEnds.measure cfg seq)
        (BringEnds.step-Good nic cfg m.slaves seq (bus_of m) v)
  drive-Drives m (stopping down) v =
      let r = Down.step nic down (bus_of m) in
      went_down-Drives cfg (with_bus m r.1) r.0 r.2 (DownEnds.measure down)
        (DownEnds.step_done-Good nic down (bus_of m) v)

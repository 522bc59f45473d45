-- ===== src/Console/Drives.antt =====
-- The commands of the console as requests to the master, which end.
use rtic_ecmaster.Base.{
  ℕ, ◌≡◌, inr, refl, arith, Bool, true, false, Option, none, some, List, Outcome, ok_or,
  no_such_slave, get_elem?, ◌≢◌, ok, err, panic,
}
use rtic_ecmaster.Cli.{Command, rescan, stop, states, upload, download, start}
use rtic_ecmaster.Config.{BusCfg}
use rtic_ecmaster.Device.{Enet}
use rtic_ecmaster.Master.{
  Request, set_state, sdo_upload, sdo_download, start_cyclic, Completion, Master, begin, begun,
  clear_for, op_of, Op, SdoOp, upload_of, download_of, slave_copy, state_begin, sdo_begin,
  stop_cyclic,
}
use rtic_ecmaster.Slave.{SlaveInfo}
use rtic_ecmaster.Master as Requests
use rtic_ecmaster.Master.Completes.{RequestValid, Ended, request_calls, polls, request-Ended}
use rtic_ecmaster.Console.{
  Action, drive, refused, answered, proceed, ecat_drive, cyclic_active, cyclic_active,
}

-- The commands that ask nothing of the bus.
abbrev pub Local : Command → Type 0
Local rescan = ⊥
Local stop = ⊥
Local (states slave target) = ⊥
Local (upload slave index subindex ty) = ⊥
Local (download slave index subindex ty bytes len) = ⊥
Local (start slave rate_hz) = ⊥
Local _ = Unit {0}

-- The commands that the worker refuses while the cycles run: those that ask something of the bus,
-- but to stop the cycles.
abbrev pub Exclusive : Command → Type 0
Exclusive rescan = Unit {0}
Exclusive (states slave target) = Unit {0}
Exclusive (upload slave index subindex ty) = Unit {0}
Exclusive (download slave index subindex ty bytes len) = Unit {0}
Exclusive (start slave rate_hz) = Unit {0}
Exclusive _ = ⊥

-- The requests of a command that is well formed.
abbrev Acts : Bool → Command → Option Action → Type 0
Acts busy cmd none = ⊥
Acts busy cmd (some (drive req)) = RequestValid req × (Exclusive cmd → busy ≡ false)
Acts busy cmd (some refused) = Exclusive cmd × (busy ≡ true)
Acts busy cmd (some answered) = Local cmd

-- The start of an operation gives it, or an error.
slave_copy-NoPanic : (found : List SlaveInfo) (slave : ℕ) → slave_copy found slave ≢ panic
slave_copy-NoPanic found slave = there (get_elem? found slave)
  where
    there : (o : Option SlaveInfo) → ok_or o no_such_slave ≢ panic
    there (some s) e = absurd cc
    there none e = absurd cc

state_begin-NoPanic :
    (target : ℕ) (r : Outcome SlaveInfo) → r ≢ panic → state_begin target r ≢ panic
state_begin-NoPanic target (ok s) h e = absurd cc
state_begin-NoPanic target (err k) h e = absurd cc
state_begin-NoPanic target panic h e = h refl

sdo_begin-NoPanic :
    (slave : ℕ) (op : SdoOp) (r : Outcome SlaveInfo) → r ≢ panic → sdo_begin slave op r ≢ panic
sdo_begin-NoPanic slave op (ok s) h e = ground arith
sdo_begin-NoPanic slave op (err k) h e = absurd cc
sdo_begin-NoPanic slave op panic h e = h refl

module _ {S : Type 0} where
  op_of-NoPanic : (m : Master S) (req : Request) → op_of m req ≢ panic
  unfolding op_of
  op_of-NoPanic m Requests.rescan e = absurd cc
  op_of-NoPanic m stop_cyclic e = absurd cc
  op_of-NoPanic m (set_state slave target) e =
      state_begin-NoPanic target (slave_copy m.slaves slave) (slave_copy-NoPanic m.slaves slave) e
  op_of-NoPanic m (sdo_upload slave index subindex) e =
      sdo_begin-NoPanic slave (upload_of index subindex) (slave_copy m.slaves slave)
        (slave_copy-NoPanic m.slaves slave) e
  op_of-NoPanic m (sdo_download slave index subindex bytes len) e =
      sdo_begin-NoPanic slave (download_of index subindex bytes len) (slave_copy m.slaves slave)
        (slave_copy-NoPanic m.slaves slave) e
  op_of-NoPanic m (start_cyclic cycle_ns) e = ground arith

  begin-NoPanic : (m : Master S) (req : Request) → (begin m req).1 ≢ panic
  unfolding begin
  begin-NoPanic m req = taken (clear_for req m) (op_of m req) (op_of-NoPanic m req)
    where
      taken : (m' : Master S) (o : Outcome Op) → o ≢ panic → (begun m' o).1 ≢ panic
      taken m' (ok op) h e = absurd cc
      taken m' (err k) h e = absurd cc
      taken m' panic h e = h refl

module _ {S : Type 0} (nic : Enet S) (cfg : BusCfg) where
  -- A request that is valid comes to its end.
  pub ecat_drive-Ended :
      (m : Master S) (req : Request)
      → RequestValid req
      → Ended (ecat_drive nic cfg (request_calls cfg m req) m req).1
  unfolding ecat_drive
  ecat_drive-Ended m req v =
      driven (begin m req) (begin-NoPanic m req) (λ e. (request-Ended nic cfg m req v e).0)
    where
      driven :
          (r : Master S × Outcome (Unit {0}))
          → r.1 ≢ panic
          → (r.1 ≡ ok tt → Ended (polls nic cfg (request_calls cfg m req) r.0).1)
          → Ended (proceed nic cfg (request_calls cfg m req) r).1
      driven (m', ok u) h k = k refl
      driven (m', err e) h k = inr (e, refl)
      driven (m', panic) h k = absurd (h refl)

  -- What the worker does about a command: a request to the master comes to its end, and is not made
  -- while the cycles run unless it is to stop them; a refusal is of such a request, while the cycles
  -- run; and an answer without a request is to a command that asks nothing of the bus.
  abbrev pub Performed : Master S → Command → Action → Type 0
  Performed m cmd (drive req) =
      Ended (ecat_drive nic cfg (request_calls cfg m req) m req).1
      × (Exclusive cmd → cyclic_active m ≡ false)
  Performed m cmd refused = Exclusive cmd × (cyclic_active m ≡ true)
  Performed m cmd answered = Local cmd

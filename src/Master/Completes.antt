-- ===== src/Master/Completes.antt =====
-- A request that the master has begun is completed or fails, and then the master is free again.
use mathlib.Core.Path.{subst}
use rtic_ecmaster.Base.{
  ℕ, zero, suc, ◌+◌, ◌*◌, ◌≤◌, ◌<◌, ◌≡◌, ◌⊎◌, inl, inr, refl, sym, arith, true, Bool-cases, Option,
  none, some, List, [], ◌∷◌, length, get_elem?, ◌==◌, Outcome, ok, err, panic, EcError,
}
use rtic_ecmaster.Config.{BusCfg, SlaveCfg}
use rtic_ecmaster.Device.{Enet}
use rtic_ecmaster.Slave.{SlaveInfo, mailbox}
use rtic_ecmaster.Scan
use rtic_ecmaster.Scan.Measure as ScanMeasure
use rtic_ecmaster.Master.Down
use rtic_ecmaster.Master.Bring
use rtic_ecmaster.Master.Pre.{needs_mailbox, sdo_state}
use rtic_ecmaster.Master.Pre
use rtic_ecmaster.Master.Pre.Ends as PreEnds
use rtic_ecmaster.Master.Bring.Ends as BringEnds
use rtic_ecmaster.Master.{
  Request, rescan, stop_cyclic, set_state, sdo_upload, sdo_download, start_cyclic, Completion,
  SdoOp, upload_of, download_of, Op, scanning, changing, sdo, starting, stopping, Master,
  slave_copy, op_of, state_begin, sdo_begin, clear_for, begun, begin, stations, drive, Driven,
  polled, poll_with, poll_op,
}
use rtic_ecmaster.Master.Requests.{SdoValid, OpValid, op_left, Drives, drive-Drives}

-- The command line hands over at least as many bytes of a download as it counts.
abbrev pub RequestValid : Request → Type 0
RequestValid rescan = Unit {0}
RequestValid stop_cyclic = Unit {0}
RequestValid (set_state slave target) = Unit {0}
RequestValid (sdo_upload slave index subindex) = Unit {0}
RequestValid (sdo_download slave index subindex bytes len) = len ≤ length bytes
RequestValid (start_cyclic cycle_ns) = Unit {0}

-- The calls of `poll_op` that a request may take.
abbrev pub request_calls : {S : Type 0} → BusCfg → Master S → Request → ℕ
request_calls cfg m rescan = 154413273
request_calls cfg m stop_cyclic = (length (stations m.cyclic) + 1) * 4014013
request_calls cfg m (set_state slave target) = 4020020
request_calls cfg m (sdo_upload slave index subindex) = 6029030
request_calls cfg m (sdo_download slave index subindex bytes len) = 6029030
request_calls cfg m (start_cyclic cycle_ns) = BringEnds.all_calls cfg.slaves + 1

-- The operation of a request is completed or has failed.
abbrev pub Ended : Option (Outcome Completion) → Type 0
Ended r = ((c : Completion) × (r ≡ some (ok c))) ⊎ ((e : EcError) × (r ≡ some (err e)))

-- What an operation that has begun must be.
abbrev Begun : BusCfg → ℕ → Outcome Op → Type 0
Begun cfg calls o = (op : Op) → o ≡ ok op → OpValid op × (op_left cfg op < calls)

state_begin-Begun :
    (cfg : BusCfg) (target : ℕ) (r : Outcome SlaveInfo) → Begun cfg 4020020 (state_begin target r)
state_begin-Begun cfg target (ok s) op e =
    let same : changing (Pre.new s.station_addr (mailbox s) target (needs_mailbox target)) ≡ op =
      cc in
    subst (λ o. OpValid o × (op_left cfg o < 4020020)) same
      (PreEnds.new-IsValid s.station_addr (mailbox s) target (needs_mailbox target))
state_begin-Begun cfg target (err er) op e = absurd cc
state_begin-Begun cfg target panic op e = absurd cc

sdo_begin-Begun :
    (cfg : BusCfg) (slave : ℕ) (request : SdoOp) (r : Outcome SlaveInfo)
    → SdoValid request
    → Begun cfg 6029030 (sdo_begin slave request r)
sdo_begin-Begun cfg slave request (ok s) v op e = elim (Bool-cases s.supports_coe) [
  | inl coe_there ↦
      let pre = Pre.new s.station_addr (mailbox s) (sdo_state s) true in
      let (valid, few) = PreEnds.new-IsValid s.station_addr (mailbox s) (sdo_state s) true in
      let same : sdo slave pre none request ≡ op = cc in
      subst (λ o. OpValid o × (op_left cfg o < 6029030)) same ((valid, v), omega (arith, few))
  | inr no_coe ↦ absurd cc
]
sdo_begin-Begun cfg slave request (err er) v op e = absurd cc
sdo_begin-Begun cfg slave request panic v op e = absurd cc

start_calls : (cfg : BusCfg) → BringEnds.measure cfg Bring.new < BringEnds.all_calls cfg.slaves + 1
start_calls cfg = first cfg.slaves
  where
    first :
        (slaves : List SlaveCfg)
        → BringEnds.calls_behind slaves 0 + BringEnds.fsm_left (get_elem? slaves 0) none
          < BringEnds.all_calls slaves + 1
    first [] = omega arith
    first (s ∷ slaves) = omega arith

module _ {S : Type 0} (nic : Enet S) (cfg : BusCfg) where
  op_of-Begun :
      (m : Master S) (request : Request)
      → RequestValid request
      → Begun cfg (request_calls cfg m request) (op_of m request)
  unfolding op_of
  op_of-Begun m rescan v op e =
      let same : scanning Scan.new ≡ op = cc in
      subst (λ o. OpValid o × (op_left cfg o < 154413273)) same ScanMeasure.new-IsValid
  op_of-Begun m stop_cyclic v op e =
      let same : stopping (Down.new (stations m.cyclic)) ≡ op = cc in
      subst (λ o. OpValid o × (op_left cfg o < (length (stations m.cyclic) + 1) * 4014013)) same
        (tt, omega arith)
  op_of-Begun m (set_state slave target) v op e =
      state_begin-Begun cfg target (slave_copy m.slaves slave) op e
  op_of-Begun m (sdo_upload slave index subindex) v op e =
      sdo_begin-Begun cfg slave (upload_of index subindex) (slave_copy m.slaves slave) tt op e
  op_of-Begun m (sdo_download slave index subindex bytes len) v op e =
      sdo_begin-Begun cfg slave (download_of index subindex bytes len) (slave_copy m.slaves slave) v
        op e
  op_of-Begun m (start_cyclic cycle_ns) v op e = elim (Bool-cases (length m.slaves == 0)) [
    | inl empty ↦ absurd cc
    | inr some_slaves ↦
        let same : starting Bring.new cycle_ns ≡ op = cc in
        subst (λ o. OpValid o × (op_left cfg o < BringEnds.all_calls cfg.slaves + 1)) same
          (tt, start_calls cfg)
  ]

  -- `poll_op` until the operation has come to its end, at most `rounds` times.
  unfoldable pub polls : ℕ → Master S → Master S × Option (Outcome Completion)
  polls zero m = (m, none)
  polls (suc rounds) m =
      let (m', answer) = poll_op nic cfg m in
      let rest = polls rounds m' in elim answer [ none ↦ rest | some c ↦ (m', some c) ]

  -- What follows a call of `poll_op` comes to an end.
  abbrev After : ℕ → Master S × Option (Outcome Completion) → Type 0
  After rounds (m, none) = Ended (polls rounds m).1 × ((polls rounds m).0.op ≡ none)
  After rounds (m, some c) = Ended (some c) × (m.op ≡ none)

  polls-After :
      (rounds : ℕ) (m : Master S) (answer : Option (Outcome Completion))
      → (poll_op nic cfg m).1 ≡ answer
      → After rounds ((poll_op nic cfg m).0, answer)
      → Ended (polls (suc rounds) m).1 × ((polls (suc rounds) m).0.op ≡ none)
  unfolding polls
  polls-After rounds m none e h = rw (polls, e) h
  polls-After rounds m (some c) e h = rw (polls, e) h

  polls-Ended :
      (rounds : ℕ) (m : Master S) (op : Op)
      → m.op ≡ some op
      → OpValid op
      → op_left cfg op < rounds
      → Ended (polls rounds m).1 × ((polls rounds m).0.op ≡ none)
  unfolding polls poll_op
  polls-Ended zero m op busy v few = absurd (omega arith)
  polls-Ended (suc rounds) m op busy v few = polls-After rounds m (poll_op nic cfg m).1 refl (
      subst (λ k. After rounds (poll_with nic cfg m k)) (sym busy)
        (settled (drive nic cfg m op) (drive-Drives nic cfg m op v)
          (λ m' op' v' less. polls-Ended rounds (record m' { op = some op' }) op' refl v' less)))
    where
      settled :
          (r : Driven S)
          → Drives cfg (op_left cfg op) r
          → ((m' : Master S) (op' : Op)
              → OpValid op'
              → op_left cfg op' < rounds
              → let ends = polls rounds (record m' { op = some op' }) in
                Ended ends.1 × (ends.0.op ≡ none))
          → After rounds (polled r)
      settled (m', op', ok none) (no_panic, less) rest =
          rest m' op' (less refl).0 (omega (arith, (less refl).1))
      settled (m', op', ok (some c)) good rest = (inl (c, refl), refl)
      settled (m', op', err e) good rest = (inr (e, refl), refl)
      settled (m', op', panic) (no_panic, less) rest = absurd (no_panic refl)

  pub request-Ended :
      (m : Master S) (request : Request)
      → RequestValid request
      → (begin m request).1 ≡ ok tt
      → let r = polls (request_calls cfg m request) (begin m request).0 in
        Ended r.1 × (r.0.op ≡ none)
  unfolding begin
  request-Ended m request v e =
      started (clear_for request m) (op_of m request) (request_calls cfg m request) e
        (op_of-Begun m request v)
    where
      started :
          (m' : Master S) (o : Outcome Op) (calls : ℕ)
          → (begun m' o).1 ≡ ok tt
          → Begun cfg calls o
          → let r = polls calls (begun m' o).0 in Ended r.1 × (r.0.op ≡ none)
      started m' (ok op) calls e good =
          let (valid, few) = good op refl in
          polls-Ended calls (record m' { op = some op }) op refl valid few
      started m' (err er) calls e good = absurd cc
      started m' panic calls e good = absurd cc

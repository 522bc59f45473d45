-- ===== src/Master/Down/Ends.antt =====
-- The way down converges.
use rtic_ecmaster.Base.{
  ℕ, ◌+◌, ◌-◌, ◌*◌, ◌≤◌, ◌<◌, ◌≡◌, ◌≢◌, inl, inr, refl, arith, Bool, true, false, Option, none,
  some, Option-cases, List, length, get_elem?, Outcome, ok, err, panic, EcError,
}
use rtic_ecmaster.Change.{FsmChange}
use rtic_ecmaster.Change
use rtic_ecmaster.Change.Ends as ChangeEnds
use rtic_ecmaster.Coe.Seq.Ends.{get_elem?-some}
use rtic_ecmaster.Device.{Enet}
use rtic_ecmaster.Exchange.{Bus}
use rtic_ecmaster.Exchange.Runs.{Good, run, run-Final, run-ne-err}
use rtic_ecmaster.SlaveConfig.{preop}
use rtic_ecmaster.Master.Down.{DownSeq, new, current, advance, step_at, step}

abbrev pub ChangeValid : Option FsmChange → Type 0
ChangeValid none = Unit {0}
ChangeValid (some c) = ChangeEnds.IsValid c

abbrev pub change_left : Option FsmChange → ℕ
change_left none = 4014012
change_left (some c) = ChangeEnds.measure c

abbrev pub IsValid : DownSeq → Type 0
IsValid seq = ChangeValid seq.change

-- The calls that the slaves ahead may take.
abbrev pub measure : DownSeq → ℕ
measure seq = (length seq.stations - seq.idx) * 4014013 + change_left seq.change

-- Whether the sequence is done.
abbrev pub is_done : Outcome (Bool × Option ℕ) → Outcome Bool
is_done (ok (finished, reached)) = ok finished
is_done (err e) = err e
is_done panic = panic

advance-Good :
    (seq : DownSeq) (station : ℕ) (c : FsmChange) (o : Outcome Bool) (before : ℕ)
    → seq.idx < length seq.stations
    → Good ChangeEnds.IsValid ChangeEnds.measure before c o
    → let r = advance seq station c o in
      Good IsValid measure ((length seq.stations - seq.idx) * 4014013 + before) r.0 (is_done r.1)
unfolding advance
advance-Good seq station c (ok false) before more good =
    (λ e. cc, λ e. ((good.1 refl).0, omega (arith, (good.1 refl).1)))
advance-Good seq station c (ok true) before more good = (λ e. cc, λ e. (tt, ground arith))
advance-Good seq station c (err er) before more good = (λ e. cc, λ e. (tt, ground arith))
advance-Good seq station c panic before more good = absurd (good.0 refl)

module _ {S : Type 0} (nic : Enet S) where
  current-Valid :
      (station : ℕ) (c : Option FsmChange)
      → ChangeValid c
      → ChangeEnds.IsValid (current station c)
        × (ChangeEnds.measure (current station c) ≤ change_left c)
  current-Valid station none v =
      let (valid, few) = ChangeEnds.new-IsValid station preop in (valid, omega (arith, few))
  current-Valid station (some c) v = (v, omega arith)

  -- A step, with its answer as that of a machine.
  abbrev pub step_done : DownSeq → Bus S → DownSeq × Bus S × Outcome Bool
  step_done seq bus = let (seq', bus', o) = step nic seq bus in (seq', bus', is_done o)

  pub step_done-Good :
      (seq : DownSeq) (bus : Bus S)
      → IsValid seq
      → Good IsValid measure (measure seq) (step_done seq bus).0 (step_done seq bus).2
  unfolding step step_at
  step_done-Good seq bus v = elim (Option-cases (get_elem? seq.stations seq.idx)) [
    | inl e ↦ rw (e, step) (λ p. cc, λ p. cc)
    | inr (station, e) ↦
        let c = current station seq.change in
        let (valid, few) = current-Valid station seq.change v in
        let more = get_elem?-some seq.stations seq.idx station e in
        let good =
          advance-Good seq station (Change.step nic c bus).0 (Change.step nic c bus).2
            (ChangeEnds.measure c) more (ChangeEnds.step-Good nic c bus valid) in
        rw (e, step) (good.0, λ p. ((good.1 p).0, omega (arith, (good.1 p).1, few)))
  ]

  step_done-ne-err : (seq : DownSeq) (bus : Bus S) (e : EcError) → (step_done seq bus).2 ≢ err e
  unfolding step step_at advance
  step_done-ne-err seq bus e = elim (Option-cases (get_elem? seq.stations seq.idx)) [
    | inl h ↦ rw (h, step) (λ p. cc)
    | inr (station, h) ↦
        rw (h, step)
          (never seq station (Change.step nic (current station seq.change) bus).0
            (Change.step nic (current station seq.change) bus).2 e)
  ]
    where
      never :
          (seq : DownSeq) (station : ℕ) (c : FsmChange) (o : Outcome Bool) (e : EcError)
          → is_done (advance seq station c o).1 ≢ err e
      never seq station c (ok false) e p = cc
      never seq station c (ok true) e p = cc
      never seq station c (err er) e p = cc
      never seq station c panic e p = cc

  -- `stop` always completes: whatever the NIC delivers, and however many slaves are gone, after at
  -- most 4014013 steps for each slave and as many more the way down is done, and no error stops it.
  pub down-converges :
      (stations : List ℕ) (bus : Bus S)
      → (run step_done ((length stations + 1) * 4014013) (new stations) bus).2 ≡ ok true
  down-converges stations bus =
      elim (run-Final step_done IsValid measure step_done-Good ((length stations + 1) * 4014013)
        (new stations) bus tt (omega arith)) [
          | inl finished ↦ finished
          | inr (e, h) ↦ absurd (
              run-ne-err step_done step_done-ne-err ((length stations + 1) * 4014013) (new stations)
                bus e h)
        ]

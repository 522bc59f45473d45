-- ===== src/Exchange/Runs.antt =====
-- Machines that are stepped until they answer something else than "pending".
use rtic_ecmaster.Base.{
  ℕ, zero, suc, ◌<◌, ◌≡◌, ◌≢◌, ◌⊎◌, inl, inr, refl, ap, arith, Bool, true, false, if◌then◌else◌,
  Outcome, ok, err, panic, EcError,
}
use rtic_ecmaster.Exchange.{Bus}

abbrev pub is_pending : Outcome Bool → Bool
is_pending (ok false) = true
is_pending _ = false

-- The machine is done, or reports an error.
abbrev pub Final : Outcome Bool → Type 0
Final o = (o ≡ ok true) ⊎ ((e : EcError) × (o ≡ err e))

pub pending-cases :
    (o : Outcome Bool) → o ≢ panic → (o ≡ ok false) ⊎ ((is_pending o ≡ false) × Final o)
pending-cases (ok false) h = inl refl
pending-cases (ok true) h = inr (refl, inl refl)
pending-cases (err e) h = inr (refl, inr (e, refl))
pending-cases panic h = absurd (h refl)

-- What a step of a machine, with this measure before it, may give.
abbrev pub Good : {F : Type 0} → (F → Type 0) → (F → ℕ) → ℕ → F → Outcome Bool → Type 0
Good IsValid measure before f' o = (o ≢ panic) × (o ≡ ok false → IsValid f' × (measure f' < before))

module _ {S F : Type 0} (step : F → Bus S → F × Bus S × Outcome Bool) where
  -- At most `rounds` calls of `step`.
  unfoldable pub run : ℕ → F → Bus S → F × Bus S × Outcome Bool
  run zero f bus = (f, bus, ok false)
  run (suc rounds) f bus =
      let (f', bus', o) = step f bus in
      let rest = run rounds f' bus' in if is_pending o then rest else (f', bus', o)

  -- A machine whose steps report no error runs without one.
  pub run-ne-err :
      ((f : F) (bus : Bus S) (e : EcError) → (step f bus).2 ≢ err e)
      → (rounds : ℕ) (f : F) (bus : Bus S) (e : EcError) → (run rounds f bus).2 ≢ err e
  unfolding run
  run-ne-err fine zero f bus e = λ p. cc
  run-ne-err fine (suc rounds) f bus e =
      settled (step f bus).2 (step f bus).0 (step f bus).1 (fine f bus e)
        (run-ne-err fine rounds (step f bus).0 (step f bus).1 e)
    where
      settled :
          (o : Outcome Bool) (f' : F) (bus' : Bus S)
          → o ≢ err e
          → (run rounds f' bus').2 ≢ err e
          → (if is_pending o then run rounds f' bus' else (f', bus', o)).2 ≢ err e
      settled (ok false) f' bus' h rest = rest
      settled (ok true) f' bus' h rest = h
      settled (err er) f' bus' h rest = h
      settled panic f' bus' h rest = h

  module _ (IsValid : F → Type 0) (measure : F → ℕ)
      (step-Good : (f : F) (bus : Bus S)
        → IsValid f
        → Good IsValid measure (measure f) (step f bus).0 (step f bus).2) where
    -- A valid machine whose measure falls with every pending step ends.
    pub run-Final :
        (rounds : ℕ) (f : F) (bus : Bus S)
        → IsValid f
        → measure f < rounds
        → Final (run rounds f bus).2
    unfolding run
    run-Final zero f bus v few = absurd (omega arith)
    run-Final (suc rounds) f bus v few =
        let (no_panic, less) = step-Good f bus v in
        elim (pending-cases (step f bus).2 no_panic) [
          | inl waits ↦
              let (valid, smaller) = less waits in
              rw (ap is_pending waits)
                (run-Final rounds (step f bus).0 (step f bus).1 valid (omega arith))
          | inr (ends, final) ↦ rw ends final
        ]

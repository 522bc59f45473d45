-- ===== src/Coe/Seq/Ends.antt =====
-- A sequence of SDO downloads ends.
use mathlib.Core.Path.{subst}
use rtic_ecmaster.Base.{
  ℕ, zero, suc, take, min, sym, ap, [], ◌∷◌, ◌+◌, ◌-◌, ◌*◌, ◌≤◌, ◌<◌, ◌≡◌, inl, inr, refl, arith,
  Bool, true, false, Option, none, some, List, length, get_elem?, Option-cases, Outcome, ok, err,
  panic,
}
use rtic_ecmaster.Device.{Enet}
use rtic_ecmaster.Exchange.{Bus}
use rtic_ecmaster.Exchange.Runs.{Good, Final, run, run-Final}
use rtic_ecmaster.Coe.{FsmCoe, new_download, four_bytes, download}
use rtic_ecmaster.Coe
use rtic_ecmaster.Coe.Ends
use rtic_ecmaster.Coe.Seq.{SdoWrite, CoeSeq, current, advance, step_transfer, step}

-- Calls that one transfer may take, and one more.
abbrev pub transfer_calls : ℕ
transfer_calls = 2009009

abbrev pub TransferValid : Option FsmCoe → Type 0
TransferValid none = Unit {0}
TransferValid (some f) = Ends.IsValid f

abbrev pub transfer_left : Option FsmCoe → ℕ
transfer_left none = transfer_calls
transfer_left (some f) = Ends.measure f

abbrev pub IsValid : CoeSeq → Type 0
IsValid seq = TransferValid seq.transfer

abbrev pub measure : CoeSeq → ℕ
measure seq = (length seq.ops - seq.cur) * (transfer_calls + 1) + transfer_left seq.transfer

advance-Good :
    (seq : CoeSeq) (f : FsmCoe) (o : Outcome Bool) (before : ℕ)
    → seq.cur < length seq.ops
    → Good Ends.IsValid Ends.measure before f o
    → Good IsValid measure
        ((length seq.ops - seq.cur) * (transfer_calls + 1) + before)
        (advance seq f o).0
        (advance seq f o).1
unfolding advance
advance-Good seq f (ok true) before more good = (λ e. cc, λ e. (tt, omega arith))
advance-Good seq f (ok false) before more good =
    let (valid, less) = good.1 refl in (λ e. cc, λ e. (valid, omega (arith, less)))
advance-Good seq f (err e) before more good = (λ e. cc, λ e. cc)
advance-Good seq f panic before more good = absurd (good.0 refl)

current-IsValid :
    (seq : CoeSeq) (t : Option FsmCoe) (op : SdoWrite)
    → TransferValid t
    → Ends.IsValid (current seq t op) × (Ends.measure (current seq t op) ≤ transfer_left t)
current-IsValid seq none op v =
    let (valid, size) =
      Ends.new-IsValid seq.mbox download op.index op.subindex (four_bytes (take op.len op.payload))
        (min (length (take op.len op.payload)) 4) in
    (valid, omega (arith, size))
current-IsValid seq (some f) op v = (v, omega arith)

pub get_elem?-some :
    {A : Type 0} (xs : List A) (i : ℕ) (a : A) → get_elem? xs i ≡ some a → i < length xs
get_elem?-some [] i a e = cc
get_elem?-some (x ∷ xs) zero a e = omega arith
get_elem?-some (x ∷ xs) (suc i) a e = omega (arith, get_elem?-some xs i a e)

module _ {S : Type 0} (nic : Enet S) where
  pub step-Good :
      (seq : CoeSeq) (bus : Bus S)
      → IsValid seq
      → Good IsValid measure (measure seq) (step nic seq bus).0 (step nic seq bus).2
  unfolding step step_transfer
  step-Good seq bus v = elim (Option-cases (get_elem? seq.ops seq.cur)) [
    | inl e ↦ rw (e, step) (λ p. cc, λ p. cc)
    | inr (op, e) ↦
        let f = current seq seq.transfer op in
        let (valid, few) = current-IsValid seq seq.transfer op v in
        let more = get_elem?-some seq.ops seq.cur op e in
        let good =
          advance-Good seq (Coe.step nic f bus).0 (Coe.step nic f bus).2 (Ends.measure f) more
            (Ends.step-Good nic f bus valid) in
        rw (e, step) (good.0, λ p. ((good.1 p).0, omega (arith, (good.1 p).1, few)))
  ]

  -- A sequence of at most 36 downloads ends, whatever the NIC delivers: stepped at most 74333370
  -- times, all its downloads are complete or an error was reported, without a panic.
  pub seq-Final :
      (seq : CoeSeq) (bus : Bus S)
      → length seq.ops ≤ 36
      → seq.transfer ≡ none
      → Final (run (step nic) 74333370 seq bus).2
  seq-Final seq bus few idle =
      run-Final (step nic) IsValid measure step-Good 74333370 seq bus
        (subst TransferValid (sym idle) tt)
        (let same : transfer_left seq.transfer ≡ transfer_calls = ap transfer_left idle in
          omega (arith, same))

-- ===== src/Change/Ends.antt =====
-- The state change ends: it never panics, and is "pending" a bounded number of times.
use rtic_ecmaster.Base.{
  ℕ, ◌+◌, ◌-◌, ◌*◌, ◌<◌, ◌≡◌, refl, arith, set_bit, Bool, false, List, [], ◌∷◌, length,
  if◌then◌else◌, Outcome,
}
use rtic_ecmaster.Datagram.{Command, Reply, fpwr, fprd}
use rtic_ecmaster.Device.{Enet}
use rtic_ecmaster.Exchange.{Exchange, Bus, single, ask}
use rtic_ecmaster.Exchange.Pending.{exchange_left, single-Writes, ask-Fair, answer-elim}
use rtic_ecmaster.Cyclic.Send.{al_control_reg, al_status_reg}
use rtic_ecmaster.Exchange.Runs.{Good, Final, run, run-Final}
use rtic_ecmaster.Change.{
  al_status_code_reg, State, write_control, read_status, ack_error, read_status_code, done,
  FsmChange, new, put, controlled, status_read, status_replied, acknowledged, code_replied,
  max_state_waits, talk, step_in, step,
}

-- What holds of the machine between two steps.
pub record IsValid (f : FsmChange) : Type 0 where
  pub buffer : length f.link.tx ≡ 64
  pub few_waits : f.waits < max_state_waits

-- How many exchanges the machine may still start, by its waits and whether an error was acknowledged.
abbrev pub exchanges_left : State → ℕ → Bool → ℕ
exchanges_left done waits acked = 0
exchanges_left read_status_code waits acked = 1
exchanges_left read_status waits acked =
    (max_state_waits - waits) + (if acked then 1 else max_state_waits + 2)
exchanges_left ack_error waits acked = max_state_waits + 2
exchanges_left write_control waits acked = 2 * max_state_waits + 3

abbrev pub measure : FsmChange → ℕ
measure f = exchanges_left f.state f.waits f.acked * 2003 + exchange_left f.link

pub new-IsValid :
    (station target : ℕ) → IsValid (new station target) × (measure (new station target) < 4014012)
unfolding new
new-IsValid station target = (record { buffer = refl; few_waits = omega arith }, omega arith)

module _ {S : Type 0} (nic : Enet S) where
  talk-Good :
      (f : FsmChange) (bus : Bus S) (cmd : Command) (ado : ℕ) (payload : List ℕ)
      (handle : FsmChange → Reply → FsmChange × Outcome Bool)
      → IsValid f
      → length payload ≡ 2
      → ((x : Exchange) (reply : Reply)
          → length x.tx ≡ 64
          → Good IsValid measure (measure f) (handle (put f x) reply).0 (handle (put f x) reply).1)
      → let r = talk nic f bus cmd ado payload handle in Good IsValid measure (measure f) r.0 r.2
  talk-Good f bus cmd ado payload handle v two handled =
      answer-elim (Good IsValid measure (measure f))
        (ask nic (single cmd f.station ado payload) f.link bus) (put f) false handle
        (ask-Fair nic 64 (single cmd f.station ado payload)
          (single-Writes 64 cmd f.station ado payload (omega arith) (omega arith) (omega arith))
          f.link bus v.buffer)
        (λ x size less.
          (λ e. cc, λ e. (record { buffer = size; few_waits = v.few_waits }, omega (arith, less))))
        (λ x reply size heard. handled x reply size) (λ x e size. (λ p. cc, λ p. cc))

  controlled-Good :
      (f : FsmChange) (x : Exchange) (reply : Reply)
      → f.state ≡ write_control
      → length x.tx ≡ 64
      → Good IsValid measure
          (measure f)
          (controlled (put f x) reply).0
          (controlled (put f x) reply).1
  unfolding controlled
  controlled-Good f x reply at size = ground arith

  status_replied-Good :
      (f : FsmChange) (x : Exchange) (reply : Reply)
      → f.state ≡ read_status
      → IsValid f
      → length x.tx ≡ 64
      → Good IsValid measure
          (measure f)
          (status_replied (put f x) reply).0
          (status_replied (put f x) reply).1
  unfolding status_replied status_read
  status_replied-Good f x reply at v size = ground arith

  acknowledged-Good :
      (f : FsmChange) (x : Exchange) (reply : Reply)
      → f.state ≡ ack_error
      → length x.tx ≡ 64
      → Good IsValid measure
          (measure f)
          (acknowledged (put f x) reply).0
          (acknowledged (put f x) reply).1
  unfolding acknowledged
  acknowledged-Good f x reply at size = ground arith

  step_in-Good :
      (s : State) (f : FsmChange) (bus : Bus S)
      → f.state ≡ s
      → IsValid f
      → let r = step_in nic s f bus in Good IsValid measure (measure f) r.0 r.2
  unfolding step_in
  step_in-Good write_control f bus at v =
      talk-Good f bus fpwr al_control_reg (f.target ∷ 0 ∷ []) controlled v refl
        (λ x reply size. controlled-Good f x reply at size)
  step_in-Good read_status f bus at v =
      talk-Good f bus fprd al_status_reg (0 ∷ 0 ∷ []) status_replied v refl
        (λ x reply size. status_replied-Good f x reply at v size)
  step_in-Good ack_error f bus at v =
      talk-Good f bus fpwr al_control_reg (set_bit f.target 4 ∷ 0 ∷ []) acknowledged v refl
        (λ x reply size. acknowledged-Good f x reply at size)
  step_in-Good read_status_code f bus at v =
      talk-Good f bus fprd al_status_code_reg (0 ∷ 0 ∷ []) code_replied v refl
        (λ x reply size. (λ e. cc, λ e. cc))
  step_in-Good done f bus at v = (λ e. cc, λ e. cc)

  pub step-Good :
      (f : FsmChange) (bus : Bus S)
      → IsValid f
      → Good IsValid measure (measure f) (step nic f bus).0 (step nic f bus).2
  unfolding step
  step-Good f bus v = step_in-Good f.state f bus refl v

  -- A state change ends, whatever the NIC delivers: stepped at most 4014012 times it has reached the
  -- target or reported an error, without a panic.
  pub change-Final :
      (station target : ℕ) (bus : Bus S) → Final (run (step nic) 4014012 (new station target) bus).2
  change-Final station target bus =
      let (valid, few) = new-IsValid station target in
      run-Final (step nic) IsValid measure step-Good 4014012 (new station target) bus valid few

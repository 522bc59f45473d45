-- ===== src/Scan/Ends.antt =====
-- The scan ends.
use rtic_ecmaster.Base.{
  ℕ, ◌≤◌, ◌≡◌, refl, arith, Bool, false, List, ◌∷◌, length, replicate, take, Outcome, le16,
}
use rtic_ecmaster.Cyclic.Send.{al_status_reg}
use rtic_ecmaster.Datagram.{Command, brd, bwr, apwr, fprd, fpwr, autoinc_adp}
use rtic_ecmaster.Device.{Enet}
use rtic_ecmaster.Exchange.{Exchange, Bus, single, ask}
use rtic_ecmaster.Exchange.Pending.{exchange_left, single-Writes, ask-Fair, answer-elim}
use rtic_ecmaster.Exchange.Runs.{Good, Final, run, run-Final}
use rtic_ecmaster.Scan.{
  SiiField, Stage, counting, clearing, assigning, reading_al, reading_dl, reading_sii, done,
  SiiPhase, commanding, polling, ScanFsm, new, put, counted, cleared, assigned, al_read, dl_read,
  on_reply, sii_commanded, sii_polled, sii_link, sii_put, sii_reply, talk, sii_step, step_in, step,
  station_addr_reg, dl_info_reg, sii_control_reg,
}
use rtic_ecmaster.Scan.Measure.{
  running_left, measure, IsValid, Handles, counted-Handles, cleared-Handles, assigned-Handles,
  al_read-Handles, dl_read-Handles, sii_commanded-Good, sii_polled-Good, new-IsValid,
}

module _ {S : Type 0} (nic : Enet S) where
  talk-Good :
      (f : ScanFsm) (bus : Bus S) (cmd : Command) (adp ado : ℕ) (payload : List ℕ)
      (handle : ScanFsm → ℕ → List ℕ → ScanFsm × Outcome Bool)
      → IsValid f
      → running_left f.stage f ≡ exchange_left f.link
      → ((x : Exchange) → running_left f.stage (put f x) ≡ exchange_left x)
      → length payload ≤ 12
      → Handles f handle
      → let r = talk nic f bus cmd adp ado payload handle in
        Good IsValid measure (measure f) r.0 r.2
  talk-Good f bus cmd adp ado payload handle v runs runs_on few handled =
      answer-elim (Good IsValid measure (measure f))
        (ask nic (single cmd adp ado payload) f.link bus) (put f) false (on_reply handle)
        (ask-Fair nic 128 (single cmd adp ado payload)
          (single-Writes 128 cmd adp ado payload (omega arith) (omega arith) (omega arith)) f.link
          bus v.buffer)
        (λ x size less. (
          λ e. cc,
          λ e. (
            record { buffer = size; few_slaves = v.few_slaves; few_polls = v.few_polls },
            omega (arith, less, runs, runs_on x),
          ),
        ))
        (λ x reply size heard. handled x reply.working_counter (take 16 reply.payload) size)
        (λ x e size. (λ p. cc, λ p. cc))

  sii_step-Good :
      (p : SiiPhase) (field : SiiField) (f : ScanFsm) (bus : Bus S)
      → f.stage ≡ reading_sii field
      → f.sii.phase ≡ p
      → IsValid f
      → let r = sii_step nic p field f bus in Good IsValid measure (measure f) r.0 r.2
  unfolding sii_step
  sii_step-Good commanding field f bus at phase v =
      let bytes = 0x80 ∷ 0x01 ∷ le16 f.sii.word in
      answer-elim (Good IsValid measure (measure f))
        (ask nic (single fpwr f.cur.station sii_control_reg bytes) (sii_link f) bus) (sii_put f)
        false (sii_reply field sii_commanded)
        (ask-Fair nic 128 (single fpwr f.cur.station sii_control_reg bytes)
          (single-Writes 128 fpwr f.cur.station sii_control_reg bytes (omega arith) (omega arith)
            (omega arith))
          (sii_link f) bus v.buffer)
        (λ x size less. (
          λ e. cc,
          λ e. (
            record { buffer = size; few_slaves = v.few_slaves; few_polls = v.few_polls },
            ground (arith, less),
          ),
        ))
        (λ x reply size heard. sii_commanded-Good field f x reply at phase v size)
        (λ x e size. (λ p. cc, λ p. cc))
  sii_step-Good polling field f bus at phase v =
      answer-elim (Good IsValid measure (measure f))
        (ask nic (single fprd f.cur.station sii_control_reg (replicate 10 0)) (sii_link f) bus)
        (sii_put f) false (sii_reply field sii_polled)
        (ask-Fair nic 128 (single fprd f.cur.station sii_control_reg (replicate 10 0))
          (single-Writes 128 fprd f.cur.station sii_control_reg (replicate 10 0) (omega arith)
            (omega arith) (omega arith))
          (sii_link f) bus v.buffer)
        (λ x size less. (
          λ e. cc,
          λ e. (
            record { buffer = size; few_slaves = v.few_slaves; few_polls = v.few_polls },
            ground (arith, less),
          ),
        ))
        (λ x reply size heard. sii_polled-Good field f x reply at phase v size)
        (λ x e size. (λ p. cc, λ p. cc))

  step_in-Good :
      (s : Stage) (f : ScanFsm) (bus : Bus S)
      → f.stage ≡ s
      → IsValid f
      → let r = step_in nic s f bus in Good IsValid measure (measure f) r.0 r.2
  unfolding step_in
  step_in-Good counting f bus at v =
      talk-Good f bus brd 0 al_status_reg (replicate 2 0) counted v (ground arith)
        (λ x. ground arith) (omega arith) (counted-Handles f at v)
  step_in-Good clearing f bus at v =
      talk-Good f bus bwr 0 station_addr_reg (replicate 2 0) cleared v (ground arith)
        (λ x. ground arith) (omega arith) (cleared-Handles f at v)
  step_in-Good assigning f bus at v =
      talk-Good f bus apwr (autoinc_adp f.cur.ring_pos) station_addr_reg (le16 f.cur.station)
        assigned v (ground arith) (λ x. ground arith) (omega arith) (assigned-Handles f at v)
  step_in-Good reading_al f bus at v =
      talk-Good f bus fprd f.cur.station al_status_reg (replicate 2 0) al_read v (ground arith)
        (λ x. ground arith) (omega arith) (al_read-Handles f at v)
  step_in-Good reading_dl f bus at v =
      talk-Good f bus fprd f.cur.station dl_info_reg (replicate 12 0) dl_read v (ground arith)
        (λ x. ground arith) (omega arith) (dl_read-Handles f at v)
  step_in-Good (reading_sii field) f bus at v = sii_step-Good f.sii.phase field f bus at refl v
  step_in-Good done f bus at v = (λ e. cc, λ e. cc)

  pub step-Good :
      (f : ScanFsm) (bus : Bus S)
      → IsValid f
      → Good IsValid measure (measure f) (step nic f bus).0 (step nic f bus).2
  unfolding step
  step-Good f bus v = step_in-Good f.stage f bus refl v

  -- The scan of the bus ends, whatever the NIC delivers: stepped at most 154413273 times, it is done
  -- or has reported an error, without a panic.
  pub scan-Final : (bus : Bus S) → Final (run (step nic) 154413273 new bus).2
  scan-Final bus =
      run-Final (step nic) IsValid measure step-Good 154413273 new bus new-IsValid.0 new-IsValid.1

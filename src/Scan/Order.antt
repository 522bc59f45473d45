-- ===== src/Scan/Order.antt =====
-- The scan hands over the slaves in ring order, and all of them.
use mathlib.Core.Path.{subst}
use rtic_ecmaster.Base.{
  ℕ, zero, suc, ◌+◌, min, ◌≤◌, ◌≡◌, refl, sym, arith, Bool, true, false, Option, none, some, List,
  [], ◌∷◌, ◌++◌, length, length-append, lt→ltb, replicate, take, if◌then◌else◌, Outcome, ok, err,
  panic, le16,
}
use rtic_ecmaster.Cyclic.Send.{al_status_reg}
use rtic_ecmaster.Datagram.{Command, brd, bwr, apwr, fprd, fpwr, Reply, autoinc_adp}
use rtic_ecmaster.Device.{Enet}
use rtic_ecmaster.Exchange.{Exchange, Bus, rebuild, single, ask, answer}
use rtic_ecmaster.Exchange.Pending.{single-Writes, ask-Fair, answer-elim}
use rtic_ecmaster.Exchange.Runs.{is_pending}
use rtic_ecmaster.Slave.{SlaveInfo}
use rtic_ecmaster.Scan.{
  SiiField, Stage, counting, clearing, assigning, reading_al, reading_dl, reading_sii, done,
  SiiPhase, commanding, polling, Sii, ScanFsm, new, put, counted, cleared, assigned, al_read,
  dl_read, on_reply, sii_commanded, sii_polled, sii_link, sii_put, sii_reply, talk, sii_step,
  step_in, step, max_slaves, station_addr_reg, dl_info_reg, sii_control_reg, collect, drain,
  push_slave,
}
use rtic_ecmaster.Scan.Measure.{IsValid}
use rtic_ecmaster.Scan.Ends.{step-Good}
use rtic_ecmaster.Scan.Published.{
  NumberedFrom, At, Scanning, Published, Goes, counted-Goes, cleared-Goes, assigned-Goes,
  al_read-Goes, dl_read-Goes, with_value-Goes, idle-Goes, err-Goes,
}

-- What the scan has handed over, and all of it once it is done.
abbrev pub Delivered : ScanFsm × List SlaveInfo × Outcome Bool → Type 0
Delivered (f, slaves, o) =
    NumberedFrom 0 slaves × (o ≡ ok true → length slaves ≡ min f.count max_slaves)

drained :
    (s : Stage) (f : ScanFsm) (n : ℕ)
    → Scanning s f n
    → Scanning s (record f { completed = none }) n
drained counting f n h = h
drained clearing f n h = h
drained assigning f n h = h
drained reading_al f n h = h
drained reading_dl f n h = h
drained (reading_sii field) f n h = h
drained done f n h = h

pub NumberedFrom-append :
    (n : ℕ) (ss : List SlaveInfo) (s : SlaveInfo)
    → NumberedFrom n ss
    → s.ring_pos ≡ n + length ss
    → s.station_addr ≡ n + length ss + 1
    → NumberedFrom n (ss ++ (s ∷ []))
unfolding NumberedFrom
NumberedFrom-append n [] s h pos addr = (omega arith, omega arith, tt)
NumberedFrom-append n (t ∷ ss) s h pos addr =
    (h.0, h.1, NumberedFrom-append (n + 1) ss s h.2 (omega arith) (omega arith))

push_slave-Goes :
    (c : Option SlaveInfo) (f : ScanFsm) (slaves : List SlaveInfo)
    → Published c f (length slaves)
    → NumberedFrom 0 slaves
    → NumberedFrom 0 (push_slave slaves c) × Scanning f.stage f (length (push_slave slaves c))
push_slave-Goes none f slaves h numbered = (numbered, h)
push_slave-Goes (some info) f slaves h numbered =
    let (pos, addr, room, next) = h in
    rw (lt→ltb (length slaves) max_slaves room) (
      NumberedFrom-append 0 slaves info numbered (omega arith) (omega arith),
      subst (Scanning f.stage f) (sym (length-append slaves (info ∷ []))) next,
    )

module _ {S : Type 0} (nic : Enet S) where
  talk-Goes :
      (f : ScanFsm) (bus : Bus S) (n : ℕ) (cmd : Command) (adp ado : ℕ) (payload : List ℕ)
      (handle : ScanFsm → ℕ → List ℕ → ScanFsm × Outcome Bool)
      → IsValid f
      → f.completed ≡ none
      → ((x : Exchange) → Scanning f.stage (put f x) n)
      → length payload ≤ 12
      → ((x : Exchange) (wkc : ℕ) (bytes : List ℕ)
          → Goes n (handle (put f x) wkc bytes).0 (handle (put f x) wkc bytes).1)
      → let r = talk nic f bus cmd adp ado payload handle in Goes n r.0 r.2
  talk-Goes f bus n cmd adp ado payload handle v idle waits few handled =
      answer-elim (Goes n) (ask nic (single cmd adp ado payload) f.link bus) (put f) false
        (on_reply handle)
        (ask-Fair nic 128 (single cmd adp ado payload)
          (single-Writes 128 cmd adp ado payload (omega arith) (omega arith) (omega arith)) f.link
          bus v.buffer)
        (λ x size less. idle-Goes (put f x) n idle (waits x))
        (λ x reply size heard. handled (rebuild x) reply.working_counter (take 16 reply.payload))
        (λ x er size. err-Goes (put f x) n er)

  sii_talk-Goes :
      (field : SiiField) (f : ScanFsm) (bus : Bus S) (n : ℕ) (cmd : Command) (payload : List ℕ)
      (handle : Sii → Reply → Sii × Outcome (Option ℕ))
      → IsValid f
      → f.completed ≡ none
      → f.stage ≡ reading_sii field
      → At f n
      → length payload ≤ 12
      → let r =
          answer
            (ask nic (single cmd f.cur.station sii_control_reg payload) (sii_link f) bus)
            (sii_put f)
            false
            (sii_reply field handle) in
        Goes n r.0 r.2
  sii_talk-Goes field f bus n cmd payload handle v idle at h few =
      answer-elim (Goes n)
        (ask nic (single cmd f.cur.station sii_control_reg payload) (sii_link f) bus) (sii_put f)
        false (sii_reply field handle)
        (ask-Fair nic 128 (single cmd f.cur.station sii_control_reg payload)
          (single-Writes 128 cmd f.cur.station sii_control_reg payload (omega arith) (omega arith)
            (omega arith))
          (sii_link f) bus v.buffer)
        (λ x size less.
          idle-Goes (sii_put f x) n idle (subst (λ s. Scanning s (sii_put f x) n) (sym at) h))
        (λ x reply size heard.
          with_value-Goes field (record (sii_put f x) { sii = (handle (sii_put f x).sii reply).0 })
            n (handle (sii_put f x).sii reply).1 idle at h)
        (λ x er size. err-Goes (sii_put f x) n er)

  sii_step-Goes :
      (p : SiiPhase) (field : SiiField) (f : ScanFsm) (bus : Bus S) (n : ℕ)
      → IsValid f
      → f.completed ≡ none
      → f.stage ≡ reading_sii field
      → At f n
      → let r = sii_step nic p field f bus in Goes n r.0 r.2
  unfolding sii_step
  sii_step-Goes commanding field f bus n v idle at h =
      sii_talk-Goes field f bus n fpwr (0x80 ∷ 0x01 ∷ le16 f.sii.word) sii_commanded v idle at h
        (omega arith)
  sii_step-Goes polling field f bus n v idle at h =
      sii_talk-Goes field f bus n fprd (replicate 10 0) sii_polled v idle at h (omega arith)

  step_in-Goes :
      (s : Stage) (f : ScanFsm) (bus : Bus S) (n : ℕ)
      → f.stage ≡ s
      → IsValid f
      → f.completed ≡ none
      → Scanning s f n
      → let r = step_in nic s f bus in Goes n r.0 r.2
  unfolding step_in
  step_in-Goes counting f bus n at v idle h =
      talk-Goes f bus n brd 0 al_status_reg (replicate 2 0) counted v idle
        (λ x. subst (λ s. Scanning s (put f x) n) (sym at) h) (omega arith)
        (λ x wkc bytes. counted-Goes (put f x) n wkc bytes idle h)
  step_in-Goes clearing f bus n at v idle h =
      talk-Goes f bus n bwr 0 station_addr_reg (replicate 2 0) cleared v idle
        (λ x. subst (λ s. Scanning s (put f x) n) (sym at) h) (omega arith)
        (λ x wkc bytes. cleared-Goes (put f x) n wkc bytes idle h.0 h.1)
  step_in-Goes assigning f bus n at v idle h =
      talk-Goes f bus n apwr (autoinc_adp f.cur.ring_pos) station_addr_reg (le16 f.cur.station)
        assigned v idle (λ x. subst (λ s. Scanning s (put f x) n) (sym at) h) (omega arith)
        (λ x wkc bytes. assigned-Goes (put f x) n wkc bytes idle h)
  step_in-Goes reading_al f bus n at v idle h =
      talk-Goes f bus n fprd f.cur.station al_status_reg (replicate 2 0) al_read v idle
        (λ x. subst (λ s. Scanning s (put f x) n) (sym at) h) (omega arith)
        (λ x wkc bytes. al_read-Goes (put f x) n wkc bytes idle h)
  step_in-Goes reading_dl f bus n at v idle h =
      talk-Goes f bus n fprd f.cur.station dl_info_reg (replicate 12 0) dl_read v idle
        (λ x. subst (λ s. Scanning s (put f x) n) (sym at) h) (omega arith)
        (λ x wkc bytes. dl_read-Goes (put f x) n wkc bytes idle h)
  step_in-Goes (reading_sii field) f bus n at v idle h =
      sii_step-Goes f.sii.phase field f bus n v idle at h
  step_in-Goes done f bus n at v idle h = (λ b e.
      (subst (λ c. Published c f n) (sym idle) (subst (λ s. Scanning s f n) (sym at) h), λ p. at))

  settle :
      (rounds : ℕ) (f : ScanFsm) (bus : Bus S) (o : Outcome Bool) (slaves : List SlaveInfo)
      → Goes (length slaves) f o
      → (o ≡ ok false → IsValid f)
      → NumberedFrom 0 slaves
      → ((g : ScanFsm) (ss : List SlaveInfo)
          → IsValid g
          → g.completed ≡ none
          → Scanning g.stage g (length ss)
          → NumberedFrom 0 ss
          → Delivered (collect nic rounds g bus ss))
      → Delivered (
          if is_pending o
          then collect nic rounds (drain o f slaves).0 bus (drain o f slaves).1
          else ((drain o f slaves).0, (drain o f slaves).1, o))
  settle rounds f bus (ok false) slaves goes valid numbered rest =
      let (more, at) = push_slave-Goes f.completed f slaves (goes false refl).0 numbered in
      let v = valid refl in
      rest (record f { completed = none }) (push_slave slaves f.completed)
        (record { buffer = v.buffer; few_slaves = v.few_slaves; few_polls = v.few_polls }) refl
        (drained f.stage f (length (push_slave slaves f.completed)) at) more
  settle rounds f bus (ok true) slaves goes valid numbered rest =
      let (published, finished) = goes true refl in
      let (more, at) = push_slave-Goes f.completed f slaves published numbered in
      (
        more,
        λ e. subst (λ s. Scanning s f (length (push_slave slaves f.completed))) (finished refl) at,
      )
  settle rounds f bus (err er) slaves goes valid numbered rest = (numbered, λ e. cc)
  settle rounds f bus panic slaves goes valid numbered rest = (numbered, λ e. cc)

  collect-Delivered :
      (rounds : ℕ) (f : ScanFsm) (bus : Bus S) (slaves : List SlaveInfo)
      → IsValid f
      → f.completed ≡ none
      → Scanning f.stage f (length slaves)
      → NumberedFrom 0 slaves
      → Delivered (collect nic rounds f bus slaves)
  unfolding collect step
  collect-Delivered zero f bus slaves v idle h numbered = (numbered, λ e. cc)
  collect-Delivered (suc rounds) f bus slaves v idle h numbered =
      settle rounds (step nic f bus).0 (step nic f bus).1 (step nic f bus).2 slaves
        (step_in-Goes f.stage f bus (length slaves) refl v idle h)
        (λ e. ((step-Good nic f bus v).1 e).0) numbered
        (λ g ss vg idle_g at more.
          collect-Delivered rounds g (step nic f bus).1 ss vg idle_g at more)

  -- The slaves that a scan hands over come in ring order, from position 0 on, each with the station
  -- address behind its position; and once the scan is done they are all the slaves that were
  -- counted, 32 at most. This holds at every moment of a scan and whatever the NIC delivers.
  pub collect-new : (rounds : ℕ) (bus : Bus S) → Delivered (collect nic rounds new bus [])
  unfolding new NumberedFrom
  collect-new rounds bus =
      collect-Delivered rounds new bus []
        (record { buffer = refl; few_slaves = omega arith; few_polls = omega arith }) refl refl tt

-- ===== src/Master/Pre/Ends.antt =====
-- The way to a target state ends.
use rtic_ecmaster.Base.{
  ℕ, ◌+◌, ◌<◌, ◌≡◌, refl, arith, Bool, true, false, Bool-cases, inl, inr, List, length,
  if◌then◌else◌, ◌==◌, Outcome, ok,
}
use rtic_ecmaster.Change.Ends as ChangeEnds
use rtic_ecmaster.Datagram.{fpwr}
use rtic_ecmaster.Device.{Enet}
use rtic_ecmaster.Exchange.{Exchange, Bus, rebuild, single, ask}
use rtic_ecmaster.Exchange.Pending.{exchange_left, single-Writes, ask-Fair, answer-elim}
use rtic_ecmaster.Exchange.Runs.{Good}
use rtic_ecmaster.Slave.{Mailbox}
use rtic_ecmaster.SlaveConfig.{sm0_reg, sm1_reg}
use rtic_ecmaster.Sync
use rtic_ecmaster.Master.Pre.{
  PreStage, config_sm0, config_sm1, changing, PreOp, new, put, written, write_page, step_in, step,
}

pub record IsValid (f : PreOp) : Type 0 where
  pub buffer : length f.link.tx ≡ 64
  pub change : ChangeEnds.IsValid f.change

abbrev pub pages_left : PreStage → Exchange → ℕ
pages_left config_sm0 x = 4006 + exchange_left x
pages_left config_sm1 x = 2003 + exchange_left x
pages_left changing x = 0

abbrev pub measure : PreOp → ℕ
measure f = pages_left f.stage f.link + ChangeEnds.measure f.change

pub new-IsValid :
    (station : ℕ) (mbox : Mailbox) (target : ℕ) (configure : Bool)
    → IsValid (new station mbox target configure)
      × (measure (new station mbox target configure) < 4020020)
unfolding new
new-IsValid station mbox target configure =
    let (valid, few) = ChangeEnds.new-IsValid station target in
    (record { buffer = refl; change = valid }, omega (arith, few))

-- Both branches of a test.
if-elim {ℓ κ} :
    {A : Type ℓ} (P : A → Type κ) (b : Bool) (x y : A) → P x → P y → P (if b then x else y)
if-elim P true x y px py = px
if-elim P false x y px py = py

module _ {S : Type 0} (nic : Enet S) where
  write_page-Good :
      (f : PreOp) (bus : Bus S) (ado : ℕ) (page : List ℕ) (next : PreStage)
      → IsValid f
      → length page ≡ 8
      → ((x x' : Exchange)
          → exchange_left x' < exchange_left x
          → pages_left f.stage x' < pages_left f.stage x)
      → ((x : Exchange) → exchange_left x ≡ 2002 → pages_left next x < pages_left f.stage f.link)
      → let r = write_page nic f bus ado page next in Good IsValid measure (measure f) r.0 r.2
  unfolding written
  write_page-Good f bus ado page next v eight waits moves =
      answer-elim (Good IsValid measure (measure f))
        (ask nic (single fpwr f.station ado page) f.link bus) (put f) false (written next)
        (ask-Fair nic 64 (single fpwr f.station ado page)
          (single-Writes 64 fpwr f.station ado page (omega arith) (omega arith) (omega arith))
          f.link bus v.buffer)
        (λ x size less. (
          λ e. cc,
          λ e. (record { buffer = size; change = v.change }, omega (arith, waits f.link x less)),
        ))
        (λ x reply size heard. elim (Bool-cases (reply.working_counter == 1)) [
          | inl e ↦ rw e (
            λ p. cc,
            λ p. (
              record { buffer = size; change = v.change },
              omega (arith, moves (rebuild x) (omega arith)),
            ),
          )
          | inr e ↦ rw e (λ p. cc, λ p. cc)
        ])
        (λ x e size. (λ p. cc, λ p. cc))

  step_in-Good :
      (s : PreStage) (f : PreOp) (bus : Bus S)
      → f.stage ≡ s
      → IsValid f
      → let r = step_in nic s f bus in Good IsValid measure (measure f) r.0 r.2
  unfolding step_in
  step_in-Good config_sm0 f bus at v =
      if-elim (λ (r : PreOp × Bus S × Outcome Bool). Good IsValid measure (measure f) r.0 r.2)
        f.configure
        (write_page nic f bus sm0_reg (Sync.write_mailbox_out f.mbox.rx_offset f.mbox.rx_size)
          config_sm1)
        (record f { stage = changing }, bus, ok false)
        (write_page-Good f bus sm0_reg (Sync.write_mailbox_out f.mbox.rx_offset f.mbox.rx_size)
          config_sm1 v refl (λ x x' h. ground arith) (λ x h. ground arith))
        (λ p. cc, λ p. (record { buffer = v.buffer; change = v.change }, ground arith))
  step_in-Good config_sm1 f bus at v =
      write_page-Good f bus sm1_reg (Sync.write_mailbox_in f.mbox.tx_offset f.mbox.tx_size) changing
        v refl (λ x x' h. ground arith) (λ x h. ground arith)
  step_in-Good changing f bus at v =
      let good = ChangeEnds.step-Good nic f.change bus v.change in
      (
        good.0,
        λ e. (record { buffer = v.buffer; change = (good.1 e).0 }, ground (arith, (good.1 e).1)),
      )

  pub step-Good :
      (f : PreOp) (bus : Bus S)
      → IsValid f
      → Good IsValid measure (measure f) (step nic f bus).0 (step nic f bus).2
  unfolding step
  step-Good f bus v = step_in-Good f.stage f bus refl v

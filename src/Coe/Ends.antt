-- ===== src/Coe/Ends.antt =====
-- An SDO transfer ends, and so does a sequence of them.
use rtic_ecmaster.Base.{
  ℕ, zero, suc, ◌+◌, ◌-◌, ◌*◌, ◌≤◌, ◌<◌, ◌≡◌, ◌≢◌, refl, arith, Bool, false, List, [], ◌∷◌, ◌++◌,
  length, length-replicate, take, replicate, Outcome, panic,
}
use rtic_ecmaster.Datagram.{Command, Reply, fpwr, fprd}
use rtic_ecmaster.Device.{Enet}
use rtic_ecmaster.Exchange.{Exchange, Bus, single, ask}
use rtic_ecmaster.Exchange.Pending.{exchange_left, single-Writes, ask-Fair, answer-elim}
use rtic_ecmaster.Exchange.Runs.{Good, Final, run, run-Final}
use rtic_ecmaster.Slave.{Mailbox}
use rtic_ecmaster.Coe.{
  SdoKind, State, write_request, wait_mailbox, read_response, done, FsmCoe, put, requested,
  mailbox_seen, responded, request_bytes, build_request, clamp, parse_sdo_response, parse_sdo, talk,
  step_in, step, max_mbox_waits, new, sm1_status_reg, max_mbox_read, max_mbox_write,
}

pub record IsValid (f : FsmCoe) : Type 0 where
  pub buffer : length f.link.tx ≡ 320
  pub few_waits : f.waits < max_mbox_waits

abbrev pub exchanges_left : State → ℕ → ℕ
exchanges_left done waits = 0
exchanges_left read_response waits = 1
exchanges_left wait_mailbox waits = (max_mbox_waits - waits) + 1
exchanges_left write_request waits = max_mbox_waits + 2

abbrev pub measure : FsmCoe → ℕ
measure f = exchanges_left f.state f.waits * 2003 + exchange_left f.link

length-take_at_most : (n : ℕ) (xs : List ℕ) → length (take n xs) ≤ n
length-take_at_most zero xs = omega arith
length-take_at_most (suc n) [] = omega arith
length-take_at_most (suc n) (x ∷ xs) = omega (arith, length-take_at_most n xs)

parse_sdo_response-ne-panic :
    (kind : SdoKind) (bytes : List ℕ) → parse_sdo_response kind bytes ≢ panic
unfolding parse_sdo_response parse_sdo
parse_sdo_response-ne-panic kind bytes e = ground arith

requested-Good :
    (f : FsmCoe) (x : Exchange) (reply : Reply)
    → f.state ≡ write_request
    → length x.tx ≡ 320
    → Good IsValid measure (measure f) (requested (put f x) reply).0 (requested (put f x) reply).1
unfolding requested
requested-Good f x reply at size = ground arith

mailbox_seen-Good :
    (f : FsmCoe) (x : Exchange) (reply : Reply)
    → f.state ≡ wait_mailbox
    → IsValid f
    → length x.tx ≡ 320
    → Good IsValid measure
        (measure f)
        (mailbox_seen (put f x) reply).0
        (mailbox_seen (put f x) reply).1
unfolding mailbox_seen
mailbox_seen-Good f x reply at v size = ground arith

responded-Good :
    (f : FsmCoe) (reply : Reply) (before : ℕ)
    → Good IsValid measure before (responded f reply).0 (responded f reply).1
unfolding responded
responded-Good f reply before = ground (arith, parse_sdo_response-ne-panic f.kind reply.payload)

pub new-IsValid :
    (mbox : Mailbox) (kind : SdoKind) (index subindex : ℕ) (bytes : List ℕ) (len : ℕ)
    → IsValid (new mbox kind index subindex bytes len)
      × (measure (new mbox kind index subindex bytes len) ≡ 2009008)
unfolding new
new-IsValid mbox kind index subindex bytes len =
    (record { buffer = refl; few_waits = omega arith }, omega arith)

module _ {S : Type 0} (nic : Enet S) where
  talk-Good :
      (f : FsmCoe) (bus : Bus S) (cmd : Command) (ado : ℕ) (payload : List ℕ)
      (handle : FsmCoe → Reply → FsmCoe × Outcome Bool)
      → IsValid f
      → length payload ≤ 256
      → ((x : Exchange) (reply : Reply)
          → length x.tx ≡ 320
          → Good IsValid measure (measure f) (handle (put f x) reply).0 (handle (put f x) reply).1)
      → let r = talk nic f bus cmd ado payload handle in Good IsValid measure (measure f) r.0 r.2
  talk-Good f bus cmd ado payload handle v few handled =
      answer-elim (Good IsValid measure (measure f))
        (ask nic (single cmd f.mbox.station_addr ado payload) f.link bus) (put f) false handle
        (ask-Fair nic 320 (single cmd f.mbox.station_addr ado payload)
          (single-Writes 320 cmd f.mbox.station_addr ado payload (omega arith) (omega arith)
            (omega arith))
          f.link bus v.buffer)
        (λ x size less.
          (λ e. cc, λ e. (record { buffer = size; few_waits = v.few_waits }, omega (arith, less))))
        (λ x reply size heard. handled x reply size) (λ x e size. (λ p. cc, λ p. cc))

  step_in-Good :
      (s : State) (f : FsmCoe) (bus : Bus S)
      → f.state ≡ s
      → IsValid f
      → let r = step_in nic s f bus in Good IsValid measure (measure f) r.0 r.2
  unfolding step_in
  step_in-Good write_request f bus at v =
      talk-Good f bus fpwr f.mbox.rx_offset (request_bytes f) requested v
        (omega (
          arith,
          length-take_at_most (clamp f.mbox.rx_size 16 max_mbox_write)
              (build_request f ++ replicate 240 0),
        ))
        (λ x reply size. requested-Good f x reply at size)
  step_in-Good wait_mailbox f bus at v =
      talk-Good f bus fprd sm1_status_reg (0 ∷ []) mailbox_seen v (omega arith)
        (λ x reply size. mailbox_seen-Good f x reply at v size)
  step_in-Good read_response f bus at v =
      talk-Good f bus fprd f.mbox.tx_offset (replicate (clamp f.mbox.tx_size 16 max_mbox_read) 0)
        responded v
        (omega (arith, length-replicate {A = ℕ} (clamp f.mbox.tx_size 16 max_mbox_read) 0))
        (λ x reply size. responded-Good (put f x) reply (measure f))
  step_in-Good done f bus at v = (λ e. cc, λ e. cc)

  pub step-Good :
      (f : FsmCoe) (bus : Bus S)
      → IsValid f
      → Good IsValid measure (measure f) (step nic f bus).0 (step nic f bus).2
  unfolding step
  step-Good f bus v = step_in-Good f.state f bus refl v

  -- An SDO transfer ends, whatever the NIC delivers: stepped at most 2009009 times, an upload or a
  -- download is complete or has reported an error, without a panic.
  pub transfer-Final :
      (mbox : Mailbox) (kind : SdoKind) (index subindex : ℕ) (bytes : List ℕ) (len : ℕ)
      (bus : Bus S)
      → Final (run (step nic) 2009009 (new mbox kind index subindex bytes len) bus).2
  transfer-Final mbox kind index subindex bytes len bus =
      let (valid, size) = new-IsValid mbox kind index subindex bytes len in
      run-Final (step nic) IsValid measure step-Good 2009009
        (new mbox kind index subindex bytes len) bus valid (omega (arith, size))

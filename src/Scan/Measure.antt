-- ===== src/Scan/Measure.antt =====
-- How many exchanges a scan still takes, and that every handler leaves fewer.
use rtic_ecmaster.Base.{
  Bool-cases, byte_at, read_le32, ℕ, ◌+◌, ◌-◌, ◌*◌, ◌≤◌, ◌<◌, ◌≡◌, ◌≢◌, inl, inr, refl, arith, Bool,
  not, ◌&&◌, ◌||◌, Option, none, some, List, length, ◌==◌, ltb, Outcome, ok, err, panic, test_bit,
}
use rtic_ecmaster.Datagram.{Reply}
use rtic_ecmaster.Exchange.{Exchange, rebuild}
use rtic_ecmaster.Exchange.Pending.{exchange_left}
use rtic_ecmaster.Exchange.Runs.{Good}
use rtic_ecmaster.Scan.{
  SiiField, vendor, product, revision, rx_mbox, tx_mbox, protocols, Stage, counting, clearing,
  assigning, reading_al, reading_dl, reading_sii, done, SiiPhase, commanding, polling, Sii, ScanFsm,
  new, begin_slave, finish_slave, apply_sii, put, counted, cleared, assigned, al_read, dl_read,
  poll_again, sii_commanded, sii_polled, sii_link, sii_put, with_value, sii_reply, max_slaves,
  sii_max_polls,
}

-- The exchanges that a slave still takes once its fields behind this one are left to read.
abbrev pub behind : SiiField → ℕ
behind protocols = 0
behind tx_mbox = 401
behind rx_mbox = 802
behind revision = 1203
behind product = 1604
behind vendor = 2005

-- The exchanges that the reading of a field still takes, behind the one that runs.
abbrev pub polls_left : SiiPhase → ℕ → ℕ
polls_left commanding polls = sii_max_polls + 1
polls_left polling polls = sii_max_polls - polls

-- The exchanges that a scan still takes behind the one that runs: 2409 for each slave.
abbrev pub exchanges_left : Stage → Sii → ℕ → ℕ
exchanges_left done s ring_pos = 0
exchanges_left (reading_sii field) s ring_pos =
    (max_slaves - 1 - ring_pos) * 2409 + behind field + polls_left s.phase s.polls
exchanges_left reading_dl s ring_pos = (max_slaves - 1 - ring_pos) * 2409 + 2407
exchanges_left reading_al s ring_pos = (max_slaves - 1 - ring_pos) * 2409 + 2408
exchanges_left assigning s ring_pos = (max_slaves - 1 - ring_pos) * 2409 + 2409
exchanges_left clearing s ring_pos = max_slaves * 2409 + 1
exchanges_left counting s ring_pos = max_slaves * 2409 + 2

-- The calls that the running exchange may still take.
abbrev pub running_left : Stage → ScanFsm → ℕ
running_left (reading_sii field) f = exchange_left (sii_link f)
running_left counting f = exchange_left f.link
running_left clearing f = exchange_left f.link
running_left assigning f = exchange_left f.link
running_left reading_al f = exchange_left f.link
running_left reading_dl f = exchange_left f.link
running_left done f = 0

abbrev pub measure : ScanFsm → ℕ
measure f = exchanges_left f.stage f.sii f.cur.ring_pos * 2003 + running_left f.stage f

pub record IsValid (f : ScanFsm) : Type 0 where
  pub buffer : length f.link.tx ≡ 128
  pub few_slaves : f.cur.ring_pos < max_slaves
  pub few_polls : f.sii.polls < sii_max_polls

-- What a handler must do with a reply.
abbrev pub Handles : ScanFsm → (ScanFsm → ℕ → List ℕ → ScanFsm × Outcome Bool) → Type 0
Handles f handle =
    (x : Exchange) (wkc : ℕ) (bytes : List ℕ)
    → length x.tx ≡ 128
    → Good IsValid measure (measure f) (handle (put f (rebuild x)) wkc bytes).0
        (handle (put f (rebuild x)) wkc bytes).1

pub counted-Handles : (f : ScanFsm) → f.stage ≡ counting → IsValid f → Handles f counted
unfolding counted
counted-Handles f at v x wkc bytes size = ground arith

pub cleared-Handles : (f : ScanFsm) → f.stage ≡ clearing → IsValid f → Handles f cleared
unfolding begin_slave
cleared-Handles f at v x wkc bytes size = ground arith

pub assigned-Handles : (f : ScanFsm) → f.stage ≡ assigning → IsValid f → Handles f assigned
unfolding assigned
assigned-Handles f at v x wkc bytes size = ground arith

pub al_read-Handles : (f : ScanFsm) → f.stage ≡ reading_al → IsValid f → Handles f al_read
unfolding al_read
al_read-Handles f at v x wkc bytes size = ground arith

pub dl_read-Handles : (f : ScanFsm) → f.stage ≡ reading_dl → IsValid f → Handles f dl_read
unfolding dl_read
dl_read-Handles f at v x wkc bytes size = ground arith

-- A value that was read leaves fewer exchanges.
pub apply_sii-less :
    (field : SiiField) (f : ScanFsm) (value : ℕ)
    → IsValid f
    → IsValid (apply_sii field f value)
      × (measure (apply_sii field f value)
          < ((max_slaves - 1 - f.cur.ring_pos) * 2409 + behind field) * 2003 + 2003)
unfolding apply_sii finish_slave begin_slave
apply_sii-less vendor f value v = ground arith
apply_sii-less product f value v = ground arith
apply_sii-less revision f value v = ground arith
apply_sii-less rx_mbox f value v = ground arith
apply_sii-less tx_mbox f value v = ground arith
apply_sii-less protocols f value v =
    elim (Bool-cases (ltb (f.cur.ring_pos + 1) f.count && ltb (f.cur.ring_pos + 1) max_slaves)) [
      | inl e ↦ rw e (
        record { buffer = v.buffer; few_slaves = ground arith; few_polls = v.few_polls },
        ground arith,
      )
      | inr e ↦ rw e (
        record { buffer = v.buffer; few_slaves = v.few_slaves; few_polls = v.few_polls },
        omega arith,
      )
    ]

pub with_value-Good :
    (field : SiiField) (f : ScanFsm) (o : Outcome (Option ℕ)) (before : ℕ)
    → o ≢ panic
    → IsValid f
    → ((max_slaves - 1 - f.cur.ring_pos) * 2409 + behind field) * 2003 + 2003 ≤ before
    → (o ≡ ok none → measure f < before)
    → Good IsValid measure before (with_value field f o).0 (with_value field f o).1
with_value-Good field f (ok none) before h v less waits = (λ e. cc, λ e. (v, waits refl))
with_value-Good field f (ok (some value)) before h v less waits =
    let (valid, few) = apply_sii-less field f value v in (λ e. cc, λ e. (valid, omega (arith, few)))
with_value-Good field f (err er) before h v less waits = (λ e. cc, λ e. cc)
with_value-Good field f panic before h v less waits = absurd (h refl)

-- The reader's handlers, on the state that the running exchange left.
pub sii_commanded-Good :
    (field : SiiField) (f : ScanFsm) (x : Exchange) (reply : Reply)
    → f.stage ≡ reading_sii field
    → f.sii.phase ≡ commanding
    → IsValid f
    → length x.tx ≡ 128
    → let r = sii_reply field sii_commanded (sii_put f x) reply in
      Good IsValid measure (measure f) r.0 r.1
unfolding sii_commanded
sii_commanded-Good field f x reply at phase v size = ground arith

pub poll_again-Good :
    (field : SiiField) (f g : ScanFsm) (s : Sii)
    → f.stage ≡ reading_sii field
    → f.sii.phase ≡ polling
    → IsValid f
    → g.stage ≡ reading_sii field
    → g.cur ≡ f.cur
    → length g.link.tx ≡ 128
    → s.phase ≡ polling
    → s.polls ≡ f.sii.polls
    → s.tx_len ≡ 0
    → let r = with_value field (record g { sii = (poll_again s).0 }) (poll_again s).1 in
      Good IsValid measure (measure f) r.0 r.1
unfolding poll_again
poll_again-Good field f g s at phase v at_g cur size sp polls fresh = ground arith

pub sii_polled-Good :
    (field : SiiField) (f : ScanFsm) (x : Exchange) (reply : Reply)
    → f.stage ≡ reading_sii field
    → f.sii.phase ≡ polling
    → IsValid f
    → length x.tx ≡ 128
    → let r = sii_reply field sii_polled (sii_put f x) reply in
      Good IsValid measure (measure f) r.0 r.1
unfolding sii_polled
sii_polled-Good field f x reply at phase v size =
    let s0 = record f.sii { pump = x.pump; tx_len = 0 } in
    let status = byte_at reply.payload 1 in
    let again = poll_again-Good field f (sii_put f x) s0 at phase v at refl size phase refl refl in
    elim (Bool-cases (reply.working_counter == 0 || ltb (length reply.payload) 10)) [
      | inl e ↦ rw e again
      | inr e ↦ elim (Bool-cases (test_bit status 5)) [
        | inl e5 ↦ rw (e, e5) (λ p. cc, λ p. cc)
        | inr e5 ↦ elim (Bool-cases (not (test_bit status 7) && not (test_bit status 0))) [
          | inl e7 ↦
              rw (e, e5, e7)
                (with_value-Good field (record (sii_put f x) { sii = s0 })
                  (ok (some (read_le32 reply.payload 6))) (measure f) (λ p. cc)
                  (record { buffer = size; few_slaves = v.few_slaves; few_polls = v.few_polls })
                  (ground arith) (λ p. cc))
          | inr e7 ↦ rw (e, e5, e7) again
        ]
      ]
    ]

pub new-IsValid : IsValid new × (measure new < 154413273)
unfolding new
new-IsValid =
    (record { buffer = refl; few_slaves = omega arith; few_polls = omega arith }, omega arith)

-- ===== src/Exchange/Pending.antt =====
-- An exchange never panics, and answers "pending" a bounded number of times.
use rtic_ecmaster.Base.{
  ℕ, ◌+◌, ◌≤◌, ◌<◌, ◌≡◌, ◌≢◌, refl, arith, Option, none, some, List, ◌==◌, if◌then◌else◌, length,
  take, u8, Outcome, ok, err, panic, EcError, Option-cases, Bool-cases, inl, inr,
}
use rtic_ecmaster.Datagram.{Command, Reply, parse, min_ecat_frame}
use rtic_ecmaster.Datagram.Frames.{build-IsFrame}
use rtic_ecmaster.Device.{Enet, pump_reset}
use rtic_ecmaster.Device.Pumping.{left, pump-pending, pump-sent, pump-ne-panic}
use rtic_ecmaster.Exchange.{
  Exchange, Bus, Writer, single, ready, exchange, parsed, ask, answer, pump_max_attempts,
}

-- A writer that fills every buffer of this size with a frame, without a panic.
abbrev pub Writes : ℕ → Writer → Type 0
Writes room write =
    (tx : List ℕ) (index : ℕ)
    → length tx ≡ room
    → (tx' : List ℕ) × (n : ℕ) × (next : ℕ) × (write tx index ≡ some (tx', n, next))
      × (length tx' ≡ room)
      × (0 < n)

pub single-Writes :
    (room : ℕ) (cmd : Command) (adp ado : ℕ) (payload : List ℕ)
    → 12 + length payload < 2048
    → 14 + length payload ≤ room
    → min_ecat_frame ≤ room
    → Writes room (single cmd adp ado payload)
unfolding single
single-Writes room cmd adp ado payload small fits padded tx index size =
    let (tx', n, e, frame, same) =
      build-IsFrame tx index cmd adp ado payload small (omega arith) (omega arith) in
    (tx', n, u8 (index + 1), rw e refl, omega arith, omega (arith, frame.padded))

-- How many more calls of an exchange may answer "pending".
abbrev pub exchange_left : Exchange → ℕ
exchange_left x = if x.tx_len == 0 then pump_max_attempts + 2 else left pump_max_attempts x.pump

-- What an exchange hands on: the length of the frame in its buffer, or the reply parsed from it.
abbrev pub Got : Exchange → ℕ → Type 0
Got x n = 4 ≤ n

abbrev pub Heard : Exchange → Reply → Type 0
Heard x reply = (n : ℕ) × (4 ≤ n) × (parse (take n x.rx) ≡ some reply)

-- An answer of an exchange that started as `x` in a buffer of `room` bytes.
pub record Fair {R : Type 0} (room : ℕ) (Says : Exchange → R → Type 0) (x x' : Exchange)
    (o : Outcome (Option R)) : Type 0 where
  pub size : length x'.tx ≡ room
  pub no_panic : o ≢ panic
  pub less : o ≡ ok none → exchange_left x' < exchange_left x
  pub says : (reply : R) → o ≡ ok (some reply) → Says x' reply

module _ {S : Type 0} (nic : Enet S) (room : ℕ) (write : Writer) (writes : Writes room write) where
  ready_lem :
      (x : Exchange) (index : ℕ)
      → length x.tx ≡ room
      → (x' : Exchange) × (next : ℕ) × (ready nic write x index ≡ some (x', next))
        × (length x'.tx ≡ room)
        × (0 < x'.tx_len)
        × (left pump_max_attempts x'.pump ≤ exchange_left x)
  unfolding ready
  ready_lem x index size = elim (Bool-cases (x.tx_len == 0)) [
    | inl fresh ↦
        let (tx', n, next, e, same, some_length) = writes x.tx index size in
        (
          record x { tx = tx'; tx_len = n; pump = pump_reset x.pump },
          next,
          rw (fresh, e) refl,
          same,
          some_length,
          ground arith,
        )
    | inr started ↦ (x, index, rw started refl, size, ground arith, ground arith)
  ]

  pub exchange-Fair :
      (x : Exchange) (bus : Bus S)
      → length x.tx ≡ room
      → Fair room Got x (exchange nic write x bus).0 (exchange nic write x bus).2
  unfolding exchange
  exchange-Fair x bus size =
      let (x', next, e, same, long, fewer) = ready_lem x bus.index size in
      let frame = take x'.tx_len x'.tx in
      rw (e, exchange)
        (record {
          size = same;
          no_panic = pump-ne-panic nic bus.dev x'.pump frame x'.rx pump_max_attempts;
          less =
              λ h. ground (arith, pump-pending nic bus.dev x'.pump frame x'.rx pump_max_attempts h);
          says = λ n h. (pump-sent nic bus.dev x'.pump frame x'.rx pump_max_attempts h).1;
        })

  pub ask-Fair :
      (x : Exchange) (bus : Bus S)
      → length x.tx ≡ room
      → Fair room Heard x (ask nic write x bus).0 (ask nic write x bus).2
  unfolding ask
  ask-Fair x bus size =
      let fair = exchange-Fair x bus size in
      let (x', bus', got) = exchange nic write x bus in parsed-Fair x x' got fair
    where
      parsed-Fair :
          (x x' : Exchange) (got : Outcome (Option ℕ))
          → Fair room Got x x' got
          → Fair room Heard x x' (parsed x'.rx got)
      parsed-Fair x x' (ok none) fair = record {
        size = fair.size;
        no_panic = λ e. cc;
        less = λ e. fair.less refl;
        says = λ r e. cc;
      }
      parsed-Fair x x' (ok (some len)) fair = elim (Option-cases (parse (take len x'.rx))) [
        | inl e ↦
            rw (e, parsed)
              (record { size = fair.size; no_panic = λ e. cc; less = λ e. cc; says = λ r e. cc })
        | inr (reply, e) ↦
            rw (e, parsed)
              (record {
                size = fair.size;
                no_panic = λ e. cc;
                less = λ e. cc;
                says = λ r h. (len, fair.says len refl, cc);
              })
      ]
      parsed-Fair x x' (err e) fair = record {
        size = fair.size;
        no_panic = λ e. cc;
        less = λ e. cc;
        says = λ r e. cc;
      }
      parsed-Fair x x' panic fair = absurd (fair.no_panic refl)

-- What holds of every answer that a state machine makes of a fair exchange: to prove it for the
-- pending answer, for the handling of a reply, and for an error.
pub answer-elim {ℓ κ} :
    {S : Type 0} {F R : Type 0} {A : Type ℓ} {room : ℕ} {Says : Exchange → R → Type 0}
    {x : Exchange} (P : F → Outcome A → Type κ) (r : Exchange × Bus S × Outcome (Option R))
    (put : Exchange → F) (pending : A) (handle : F → R → F × Outcome A)
    → Fair room Says x r.0 r.2
    → ((x' : Exchange)
        → length x'.tx ≡ room
        → exchange_left x' < exchange_left x
        → P (put x') (ok pending))
    → ((x' : Exchange) (reply : R)
        → length x'.tx ≡ room
        → Says x' reply
        → P (handle (put x') reply).0 (handle (put x') reply).1)
    → ((x' : Exchange) (e : EcError) → length x'.tx ≡ room → P (put x') (err e))
    → P (answer r put pending handle).0 (answer r put pending handle).2
answer-elim P (x', bus, ok none) put pending handle fair wait take_reply fail =
    wait x' fair.size (fair.less refl)
answer-elim P (x', bus, ok (some reply)) put pending handle fair wait take_reply fail =
    take_reply x' reply fair.size (fair.says reply refl)
answer-elim P (x', bus, err e) put pending handle fair wait take_reply fail = fail x' e fair.size
answer-elim P (x', bus, panic) put pending handle fair wait take_reply fail =
    absurd (fair.no_panic refl)

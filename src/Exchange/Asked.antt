-- ===== src/Exchange/Asked.antt =====
-- What an exchange has sent: the frame of its request, and the reply that carries the same index.
use rtic_ecmaster.Base.{
  ℕ, ◌+◌, ◌≤◌, ◌<◌, ◌≡◌, ◌⊎◌, inl, inr, refl, ap, ◌∙◌, arith, Option, none, some, List, [], ◌∷◌,
  ◌++◌, ◌==◌, length, take, take-append, u8, byte_at, Outcome, ok, err, panic, EcError,
  Option-cases, Bool-cases,
}
use rtic_ecmaster.Datagram.{Command, Reply, parse, min_ecat_frame}
use rtic_ecmaster.Datagram.Wire.{Datagram}
use rtic_ecmaster.Datagram.Frames.{request, content, IsFrame, build-IsFrame}
use rtic_ecmaster.Device.{Enet, pump_reset, pump}
use rtic_ecmaster.Device.Pumping.{Tied, pump-reply}
use rtic_ecmaster.Exchange.{
  Exchange, Bus, single, ready, exchange, parsed, ask, answer, pump_max_attempts,
}
use rtic_ecmaster.Exchange.Pending.{Heard}

IsFrame-index :
    {buf : List ℕ} {total : ℕ} (d : Datagram)
    → IsFrame buf total (d ∷ [])
    → byte_at (take total buf) 3 ≡ d.index
IsFrame-index {buf} {total} d h = ap (λ sent. byte_at sent 3) whole
  where
    whole : take total buf ≡ content (d ∷ []) ++ h.padding
    whole = rw (h.written, h.sized) (take-append (content (d ∷ []) ++ h.padding) h.unused)

module _ (room : ℕ) (cmd : Command) (adp ado : ℕ) (payload : List ℕ) where
  -- The buffer holds the frame of the request, and the pump waits for its index.
  pub record Sending (x : Exchange) : Type 0 where
    pub index : ℕ
    pub size : length x.tx ≡ room
    pub frame : IsFrame x.tx x.tx_len (request index cmd adp ado payload ∷ [])
    pub tied : Tied (take x.tx_len x.tx) x.pump

  -- No frame is built yet, or it is this one.
  pub record Asking (x : Exchange) : Type 0 where
    pub room_left : length x.tx ≡ room
    pub begun : (x.tx_len ≡ 0) ⊎ Sending x

  -- The answer carries the index of the request that was sent.
  pub record Answered (x : Exchange) (o : Outcome (Option Reply)) : Type 0 where
    pub sending : Sending x
    pub heard :
        (reply : Reply) → o ≡ ok (some reply) → Heard x reply × (byte_at x.rx 3 ≡ sending.index)

  module _ {S : Type 0} (nic : Enet S) (small : 12 + length payload < 2048)
      (fits : 14 + length payload ≤ room) (padded : min_ecat_frame ≤ room) where
    ready-Sending :
        (x : Exchange) (index : ℕ)
        → Asking x
        → (x' : Exchange) × (next : ℕ) × (ready nic (single cmd adp ado payload) x index
            ≡ some (x', next))
          × Sending x'
    unfolding ready single
    ready-Sending x index a = elim (Bool-cases (x.tx_len == 0)) [
      | inl fresh ↦
          let (tx', n, e, frame, same) =
            build-IsFrame x.tx index cmd adp ado payload small (omega (arith, a.room_left))
              (omega (arith, a.room_left)) in
          (
            record x { tx = tx'; tx_len = n; pump = pump_reset x.pump },
            u8 (index + 1),
            rw (fresh, e) refl,
            record {
              index = index;
              size = same ∙ a.room_left;
              frame = frame;
              tied = λ sent. absurd cc;
            },
          )
      | inr started ↦ elim a.begun [
        | inl none_yet ↦ absurd (ground arith)
        | inr sending ↦ (x, index, rw started refl, sending)
      ]
    ]

    pub ask-Answered :
        (x : Exchange) (bus : Bus S)
        → Asking x
        → Answered
            (ask nic (single cmd adp ado payload) x bus).0
            (ask nic (single cmd adp ado payload) x bus).2
    unfolding ask exchange
    ask-Answered x bus a =
        let (x', next, e, sending) = ready-Sending x bus.index a in
        let after = pump nic bus.dev x'.pump (take x'.tx_len x'.tx) x'.rx pump_max_attempts in
        let (tied, replied) =
          pump-reply nic bus.dev x'.pump (take x'.tx_len x'.tx) x'.rx pump_max_attempts
            sending.tied in
        let x'' : Exchange = record x' { pump = after.1; rx = after.2 } in
        let index = IsFrame-index (request sending.index cmd adp ado payload) sending.frame in
        rw (e, ask, exchange)
          (record {
            sending = record {
              index = sending.index;
              size = sending.size;
              frame = sending.frame;
              tied = tied;
            };
            heard =
                told x'' sending.index after.3 (λ n h. (replied n h).1)
                  (λ n h. (replied n h).2 ∙ index);
          })
      where
        told :
            (y : Exchange) (i : ℕ) (got : Outcome (Option ℕ))
            → ((n : ℕ) → got ≡ ok (some n) → 4 ≤ n)
            → ((n : ℕ) → got ≡ ok (some n) → byte_at y.rx 3 ≡ i)
            → (reply : Reply) → parsed y.rx got ≡ ok (some reply)
            → Heard y reply × (byte_at y.rx 3 ≡ i)
        told y i (ok none) long same reply h = absurd cc
        told y i (ok (some n)) long same reply h = elim (Option-cases (parse (take n y.rx))) [
          | inl e ↦ absurd cc
          | inr (r, e) ↦ ((n, long n refl, ground arith), same n refl)
        ]
        told y i (err e) long same reply h = absurd cc
        told y i panic long same reply h = absurd cc

-- What holds of every answer that a state machine makes of an answered request.
pub answered-elim {ℓ κ} :
    {S : Type 0} {F : Type 0} {A : Type ℓ} {room : ℕ} {cmd : Command} {adp ado : ℕ}
    {payload : List ℕ} (P : F → Outcome A → Type κ) (r : Exchange × Bus S × Outcome (Option Reply))
    (put : Exchange → F) (pending : A) (handle : F → Reply → F × Outcome A)
    → Answered room cmd adp ado payload r.0 r.2
    → ((x : Exchange) → Sending room cmd adp ado payload x → P (put x) (ok pending))
    → ((x : Exchange) (reply : Reply)
        → Heard x reply
        → (sending : Sending room cmd adp ado payload x) → byte_at x.rx 3 ≡ sending.index
        → P (handle (put x) reply).0 (handle (put x) reply).1)
    → ((x : Exchange) (e : EcError) → P (put x) (err e))
    → ((x : Exchange) → P (put x) panic)
    → P (answer r put pending handle).0 (answer r put pending handle).2
answered-elim P (x, bus, ok none) put pending handle a wait took fail stop = wait x a.sending
answered-elim P (x, bus, ok (some reply)) put pending handle a wait took fail stop =
    let (heard, same) = a.heard reply refl in took x reply heard a.sending same
answered-elim P (x, bus, err e) put pending handle a wait took fail stop = fail x e
answered-elim P (x, bus, panic) put pending handle a wait took fail stop = stop x

-- ===== src/Change/Reached.antt =====
-- What a state change that reports success has asked for and has seen.
use mathlib.Core.Path.{subst}
use rtic_ecmaster.Base.{
  ℕ, ◌+◌, leb, ◌==◌, Bool-cases, ◌/◌, ◌%◌, ◌≡◌, ◌≢◌, refl, sym, ◌∙◌, inl, inr, arith, true, false,
  Bool, List, [], ◌∷◌, length, byte_at, Outcome, ok, err, panic, set_bit, if◌then◌else◌,
}
use rtic_ecmaster.Datagram.{Command, Reply, fpwr, fprd}
use rtic_ecmaster.Cyclic.{al_error, al_nibble}
use rtic_ecmaster.Cyclic.Send.{al_control_reg, al_status_reg}
use rtic_ecmaster.Device.{Enet}
use rtic_ecmaster.Exchange.{Exchange, Bus, single, ask}
use rtic_ecmaster.Exchange.Asked.{Sending, Asking, Answered, ask-Answered, answered-elim}
use rtic_ecmaster.Exchange.Pending.{Heard, single-Writes, ask-Fair, answer-elim}
use rtic_ecmaster.Change.{
  State, write_control, read_status, ack_error, read_status_code, done, FsmChange, new, put,
  controlled, status_read, status_replied, acknowledged, code_replied, talk, step_in, step,
  al_status_code_reg, max_state_waits,
}

-- The register of the AL status (ETG.1000).
abbrev pub status_register : ℕ
status_register = 0x0130

-- The exchange of a machine that reads the status of this slave.
abbrev pub Reads : ℕ → Exchange → Type 0
Reads station x = Sending 64 fprd station status_register (0 ∷ 0 ∷ []) x

-- The machine has sent the read of the status register of this slave, and holds the reply with the
-- index of that request: the slave processed it, and its status byte has the target in the bits 0 to
-- 3 and the error bit 4 clear.
pub record Shown (station target : ℕ) (f : FsmChange) : Type 0 where
  pub is_done : f.state ≡ done
  pub sending : Reads station f.link
  pub same_index : byte_at f.link.rx 3 ≡ sending.index
  pub reply : Reply
  pub heard : Heard f.link reply
  pub processed : reply.working_counter ≡ 1
  pub no_error : byte_at reply.payload 0 / 16 % 2 ≡ 0
  pub in_target : byte_at reply.payload 0 % 16 ≡ target

-- A machine on its way: what it has built in the status read is the read of the status register.
pub record OnItsWay (station target : ℕ) (f : FsmChange) : Type 0 where
  pub same_station : f.station ≡ station
  pub same_target : f.target ≡ target
  pub room : length f.link.tx ≡ 64
  pub not_done : f.state ≢ done
  pub reads : f.state ≡ read_status → Asking 64 fprd station status_register (0 ∷ 0 ∷ []) f.link

abbrev pub Proven : ℕ → ℕ → FsmChange → Outcome Bool → Type 0
Proven station target f' o =
    (o ≡ ok true → Shown station target f') × (o ≡ ok false → OnItsWay station target f')

pub new-OnItsWay : (station target : ℕ) → OnItsWay station target (new station target)
unfolding new
new-OnItsWay station target = record {
  same_station = refl;
  same_target = refl;
  room = refl;
  not_done = λ e. cc;
  reads = λ e. absurd cc;
}

module _ {S : Type 0} (nic : Enet S) (station target : ℕ) where
  -- An exchange in another state than the status read.
  talk-Proven :
      (f : FsmChange) (bus : Bus S) (cmd : Command) (ado : ℕ) (payload : List ℕ)
      (handle : FsmChange → Reply → FsmChange × Outcome Bool)
      → OnItsWay station target f
      → f.state ≢ read_status
      → length payload ≡ 2
      → ((x : Exchange) (reply : Reply)
          → length x.tx ≡ 64
          → Proven station target (handle (put f x) reply).0 (handle (put f x) reply).1)
      → let r = talk nic f bus cmd ado payload handle in Proven station target r.0 r.2
  talk-Proven f bus cmd ado payload handle v other two handled =
      answer-elim (Proven station target) (ask nic (single cmd f.station ado payload) f.link bus)
        (put f) false handle
        (ask-Fair nic 64 (single cmd f.station ado payload)
          (single-Writes 64 cmd f.station ado payload (omega arith) (omega arith) (omega arith))
          f.link bus v.room)
        (λ x same less. (
          λ e. absurd cc,
          λ e. record {
            same_station = v.same_station;
            same_target = v.same_target;
            room = same;
            not_done = v.not_done;
            reads = λ at. absurd (other at);
          },
        ))
        (λ x reply same heard. handled x reply same) (λ x e same. (λ p. absurd cc, λ p. absurd cc))

  -- A machine that starts on another frame.
  turned :
      (f f' : FsmChange) (size : length f'.link.tx ≡ 64)
      → OnItsWay station target f
      → f'.station ≡ f.station
      → f'.target ≡ f.target
      → f'.state ≢ done
      → f'.link.tx_len ≡ 0
      → Proven station target f' (ok false)
  turned f f' size v s t n fresh = (
    λ e. absurd cc,
    λ e. record {
      same_station = s ∙ v.same_station;
      same_target = t ∙ v.same_target;
      room = size;
      not_done = n;
      reads = λ at. record { room_left = size; begun = inl fresh };
    },
  )

  failed-Proven :
      (f : FsmChange) (o : Outcome Bool) → o ≢ ok true → o ≢ ok false → Proven station target f o
  failed-Proven f o h k = (λ e. absurd (h e), λ e. absurd (k e))

  controlled-Proven :
      (f : FsmChange) (x : Exchange) (reply : Reply)
      → OnItsWay station target f
      → length x.tx ≡ 64
      → Proven station target (controlled (put f x) reply).0 (controlled (put f x) reply).1
  unfolding controlled
  controlled-Proven f x reply v size = elim (Bool-cases (reply.working_counter == 1)) [
    | inl e ↦ rw e (turned f _ size v refl refl (λ q. cc) refl)
    | inr e ↦ rw e (failed-Proven _ _ (λ q. cc) (λ q. cc))
  ]

  acknowledged-Proven :
      (f : FsmChange) (x : Exchange) (reply : Reply)
      → OnItsWay station target f
      → length x.tx ≡ 64
      → Proven station target (acknowledged (put f x) reply).0 (acknowledged (put f x) reply).1
  unfolding acknowledged
  acknowledged-Proven f x reply v size = elim (Bool-cases (reply.working_counter == 1)) [
    | inl e ↦ rw e (turned f _ size v refl refl (λ q. cc) refl)
    | inr e ↦ rw e (failed-Proven _ _ (λ q. cc) (λ q. cc))
  ]

  error_state : (acked : Bool) → (if acked then read_status_code else ack_error) ≢ done
  error_state true e = absurd cc
  error_state false e = absurd cc

  -- The three ways of a status byte.
  status_read-Proven :
      (f : FsmChange) (x : Exchange) (reply : Reply)
      → OnItsWay station target f
      → f.state ≡ read_status
      → Heard x reply
      → (sending : Reads station x) → byte_at x.rx 3 ≡ sending.index
      → reply.working_counter ≡ 1
      → let r = status_read (put f x) (byte_at reply.payload 0) in Proven station target r.0 r.1
  unfolding status_read
  status_read-Proven f x reply v at heard sending same wkc =
      let status = byte_at reply.payload 0 in
      elim (Bool-cases (al_error status)) [
        | inl e ↦ rw e (turned f _ sending.size v refl refl (error_state f.acked) refl)
        | inr clear ↦ elim (Bool-cases (al_nibble status == f.target)) [
          | inl shows ↦
              rw (clear, shows)
                (
                  λ e. record {
                    is_done = refl;
                    sending = sending;
                    same_index = same;
                    reply = reply;
                    heard = heard;
                    processed = wkc;
                    no_error = ground arith;
                    in_target = ground (arith, v.same_target);
                  },
                  λ e. absurd cc,
                )
          | inr off ↦
              rw (clear, off)
                (elim (Bool-cases (leb max_state_waits (f.waits + 1))) [
                  | inl e ↦ rw e (failed-Proven _ _ (λ q. cc) (λ q. cc))
                  | inr e ↦ rw e (turned f _ sending.size v refl refl (λ q. cc) refl)
                ])
        ]
      ]

  status_replied-Proven :
      (f : FsmChange) (x : Exchange) (reply : Reply)
      → OnItsWay station target f
      → f.state ≡ read_status
      → Heard x reply
      → (sending : Reads station x) → byte_at x.rx 3 ≡ sending.index
      → Proven station target (status_replied (put f x) reply).0 (status_replied (put f x) reply).1
  unfolding status_replied
  status_replied-Proven f x reply v at heard sending same =
      elim (Bool-cases (reply.working_counter == 1)) [
        | inl e ↦ rw e (status_read-Proven f x reply v at heard sending same (ground arith))
        | inr e ↦ rw e (failed-Proven _ _ (λ q. cc) (λ q. cc))
      ]

  read-Proven :
      (f : FsmChange) (bus : Bus S)
      → OnItsWay station target f
      → f.state ≡ read_status
      → let r = talk nic f bus fprd al_status_reg (0 ∷ 0 ∷ []) status_replied in
        Proven station target r.0 r.2
  read-Proven f bus v at =
      answered-elim (Proven station target)
        (ask nic (single fprd f.station al_status_reg (0 ∷ 0 ∷ [])) f.link bus) (put f) false
        status_replied
        (subst
          (λ s.
            Answered 64 fprd station status_register (0 ∷ 0 ∷ [])
              (ask nic (single fprd s al_status_reg (0 ∷ 0 ∷ [])) f.link bus).0
              (ask nic (single fprd s al_status_reg (0 ∷ 0 ∷ [])) f.link bus).2)
          (sym v.same_station)
          (ask-Answered 64 fprd station status_register (0 ∷ 0 ∷ []) nic (omega arith) (omega arith)
            (omega arith) f.link bus (v.reads at)))
        (λ x sending. (
          λ e. absurd cc,
          λ e. record {
            same_station = v.same_station;
            same_target = v.same_target;
            room = sending.size;
            not_done = v.not_done;
            reads = λ q. record { room_left = sending.size; begun = inr sending };
          },
        ))
        (λ x reply heard sending same. status_replied-Proven f x reply v at heard sending same)
        (λ x e. failed-Proven (put f x) (err e) (λ q. cc) (λ q. cc))
        (λ x. failed-Proven (put f x) panic (λ q. cc) (λ q. cc))

  step_in-Proven :
      (s : State) (f : FsmChange) (bus : Bus S)
      → f.state ≡ s
      → OnItsWay station target f
      → let r = step_in nic s f bus in Proven station target r.0 r.2
  unfolding step_in
  step_in-Proven write_control f bus at v =
      talk-Proven f bus fpwr al_control_reg (f.target ∷ 0 ∷ []) controlled v (λ e. cc) refl
        (λ x reply size. controlled-Proven f x reply v size)
  step_in-Proven read_status f bus at v = read-Proven f bus v at
  step_in-Proven ack_error f bus at v =
      talk-Proven f bus fpwr al_control_reg (set_bit f.target 4 ∷ 0 ∷ []) acknowledged v (λ e. cc)
        refl (λ x reply size. acknowledged-Proven f x reply v size)
  step_in-Proven read_status_code f bus at v =
      talk-Proven f bus fprd al_status_code_reg (0 ∷ 0 ∷ []) code_replied v (λ e. cc) refl
        (λ x reply size. failed-Proven _ _ (λ q. cc) (λ q. cc))
  step_in-Proven done f bus at v = absurd (v.not_done at)

  pub step-Proven :
      (f : FsmChange) (bus : Bus S)
      → OnItsWay station target f
      → Proven station target (step nic f bus).0 (step nic f bus).2
  unfolding step
  step-Proven f bus v = step_in-Proven f.state f bus refl v

-- ===== src/BlockingScan/Calls.antt =====
-- The calls of the blocking scan never panic, whatever the NIC delivers.
use rtic_ecmaster.Base.{
  if_holds, byte_at, le16, working_counter_mismatch, ℕ, zero, suc, ◌+◌, ◌≤◌, ◌≡◌, ◌≢◌, refl, ◌∙◌,
  arith, not, ◌&&◌, ◌||◌, Option, none, some, List, ◌∷◌, ltb, ◌==◌, if◌then◌else◌, length, take,
  replicate, Outcome, get_or, ok, err, panic, test_bit, u8,
}
use rtic_ecmaster.Datagram.{Command, fprd, fpwr, Reply, parse}
use rtic_ecmaster.Datagram.Frames.{build-IsFrame}
use rtic_ecmaster.Device.{Enet, Device, send, poll, await_reply, transact}
use rtic_ecmaster.Scan.{scan_frame_buf, sii_control_reg}
use rtic_ecmaster.BlockingScan.{
  sii_poll_attempts, Line, M, next, fail, transacted, transfer, hear, heard, call, polled, sii_poll,
  sii_read_u32,
}

-- A call on a line whose buffer has its full size keeps that size, and does not panic; what it gives
-- has the property `P`.
abbrev pub Good : {S A : Type 0} → (A → Type 0) → Line S × Outcome A → Type 0
Good P (l, ok a) = (length l.tx ≡ scan_frame_buf) × P a
Good P (l, err e) = Unit {0}
Good P (l, panic) = ⊥

abbrev pub Any : {A : Type 0} → A → Type 0
Any a = Unit {0}

abbrev pub Sound : {S A : Type 0} → (A → Type 0) → M S A → Type 0
Sound {S} P m = (l : Line S) → length l.tx ≡ scan_frame_buf → Good P (m l)

pub bind-Good :
    {S A B : Type 0} (P : A → Type 0) (Q : B → Type 0) (r : Line S × Outcome A) (f : A → M S B)
    → Good P r
    → ((a : A) → P a → Sound Q (f a))
    → Good Q (next f r)
unfolding next
bind-Good P Q (l, ok a) f (size, p) k = k a p l size
bind-Good P Q (l, err e) f h k = tt
bind-Good P Q (l, panic) f h k = absurd h

module _ {S : Type 0} (nic : Enet S) where
  send-NoPanic : (dev : Device S) (frame : List ℕ) → (send nic dev frame).1 ≢ panic
  unfolding send
  send-NoPanic dev frame e = ground arith

  await_reply-NoPanic :
      (polls : ℕ) (dev : Device S) (out : List ℕ) (expected : ℕ)
      → (await_reply nic polls dev out expected).2 ≢ panic
  unfolding await_reply
  await_reply-NoPanic zero dev out expected e = absurd cc
  await_reply-NoPanic (suc polls) dev out expected e =
      let r = poll nic dev out in ground (arith, await_reply-NoPanic polls r.0 r.1 expected)

  pub transact-NoPanic :
      (attempts : ℕ) (dev : Device S) (frame out : List ℕ)
      → (transact nic attempts dev frame out).2 ≢ panic
  unfolding transact
  transact-NoPanic attempts dev frame out e =
      let r = send nic dev frame in
      ground
        (arith, send-NoPanic dev frame, await_reply-NoPanic attempts r.0 out (get_or frame 3 0))

module _ {S : Type 0} (nic : Enet S) (attempts : ℕ) where
  transacted-Good :
      (l : Line S) (r : Device S × List ℕ × Outcome ℕ)
      → length l.tx ≡ scan_frame_buf
      → r.2 ≢ panic
      → Good Any (transacted l r)
  transacted-Good l (dev, rx, ok n) size h = (size, tt)
  transacted-Good l (dev, rx, err e) size h = tt
  transacted-Good l (dev, rx, panic) size h = absurd (h refl)

  -- A payload that leaves room for the headers makes no panic.
  pub transfer-Sound :
      (cmd : Command) (adp ado : ℕ) (payload : List ℕ)
      → length payload ≤ 100
      → Sound Any (transfer nic attempts cmd adp ado payload)
  unfolding transfer
  transfer-Sound cmd adp ado payload small l size =
      let (tx, n, built, frame, same) =
        build-IsFrame l.tx l.index cmd adp ado payload (omega arith) (omega arith) (omega arith) in
      rw built (
        transacted-Good (record l { tx = tx; index = u8 (l.index + 1) })
          (transact nic attempts l.dev (take n tx) l.rx) (same ∙ size)
          (transact-NoPanic nic attempts l.dev (take n tx) l.rx))

  pub call-Sound :
      (cmd : Command) (adp ado : ℕ) (payload : List ℕ)
      → length payload ≤ 100
      → Sound Any (call nic attempts cmd adp ado payload)
  unfolding call
  call-Sound cmd adp ado payload small l size =
      bind-Good Any Any (transfer nic attempts cmd adp ado payload l) hear
        (transfer-Sound cmd adp ado payload small l size)
        (λ n p l' size'. replied l' (parse (take n l'.rx)) size')
    where
      replied :
          (l : Line S) (r : Option Reply) → length l.tx ≡ scan_frame_buf → Good Any (heard l r)
      replied l (some r) h = (h, tt)
      replied l none h = tt

  pub polled-Sound :
      (reply : Reply) (again : M S ℕ) → Sound Any again → Sound Any (polled reply again)
  polled-Sound reply again h l size =
      if_holds Holds (reply.working_counter == 0 || ltb (length reply.payload) 10) (λ _. h l size)
        (if_holds Holds (test_bit (byte_at reply.payload 1) 5) (λ _. tt)
          (if_holds Holds
            (not (test_bit (byte_at reply.payload 1) 7)
              && not (test_bit (byte_at reply.payload 1) 0))
            (λ _. (size, tt)) (h l size)))
    where
      Holds : M S ℕ → Type 0
      Holds m = Good Any (m l)

  sii_poll-Sound : (polls station : ℕ) → Sound Any (sii_poll nic attempts polls station)
  unfolding sii_poll
  sii_poll-Sound zero station l size = tt
  sii_poll-Sound (suc polls) station l size =
      bind-Good Any Any (call nic attempts fprd station sii_control_reg (replicate 10 0) l)
        (λ reply. polled reply (sii_poll nic attempts polls station))
        (call-Sound fprd station sii_control_reg (replicate 10 0) (omega arith) l size)
        (λ reply h.
          polled-Sound reply (sii_poll nic attempts polls station) (sii_poll-Sound polls station))

  pub sii_read_u32-Sound :
      (station word_offset : ℕ) → Sound Any (sii_read_u32 nic attempts station word_offset)
  unfolding sii_read_u32
  sii_read_u32-Sound station word_offset l size =
      let l' : Line S = record l {
        tx = replicate scan_frame_buf 0;
        rx = replicate scan_frame_buf 0;
      } in
      let command : List ℕ = 0x80 ∷ 0x01 ∷ le16 word_offset in
      bind-Good Any Any (call nic attempts fpwr station sii_control_reg command l')
        (λ reply.
          (if reply.working_counter == 0
            then fail working_counter_mismatch
            else sii_poll nic attempts sii_poll_attempts station))
        (call-Sound fpwr station sii_control_reg command (omega arith) l' refl)
        (λ reply h m n.
          if_holds (λ (k : M S ℕ). Good Any (k m)) (reply.working_counter == 0) (λ _. tt)
            (sii_poll-Sound sii_poll_attempts station m n))

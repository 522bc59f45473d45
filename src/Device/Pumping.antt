-- ===== src/Device/Pumping.antt =====
-- What one `pump` answers, and that a transaction ends within its budget of polls.
use rtic_ecmaster.Base.{
  ℕ, ◌+◌, ◌-◌, ◌≤◌, ◌<◌, ◌≡◌, ◌∙◌, arith, true, Option, none, some, List, if◌then◌else◌, byte_at,
  Outcome, ok, err, panic, timeout,
}
use rtic_ecmaster.Device.{Enet, Device, Pump, send, pump}

-- How many more calls may answer "pending": the send and `max_attempts - 1` polls.
abbrev pub left : ℕ → Pump → ℕ
left max_attempts p = if p.sent then max_attempts - p.attempts else max_attempts + 1

-- A transaction that has sent its request waits for the datagram index that the frame carries, behind
-- its two header bytes and the command.
abbrev pub Tied : List ℕ → Pump → Type 0
Tied frame p = p.sent ≡ true → p.expected ≡ byte_at frame 3

module _ {S : Type 0} (nic : Enet S) (dev : Device S) (p : Pump) (frame rx : List ℕ)
    (max_attempts : ℕ) where
  abbrev after : Device S × Pump × List ℕ × Outcome (Option ℕ)
  after = pump nic dev p frame rx max_attempts

  -- A "pending" answer makes the number of calls left smaller, so that at most `max_attempts + 1`
  -- calls in a row answer "pending".
  pub pump-pending : after.3 ≡ ok none → left max_attempts after.1 < left max_attempts p
  unfolding pump
  pump-pending h = ground arith

  pub pump-sent :
      {n : ℕ} → after.3 ≡ ok (some n) → (p.sent ≡ true) × (4 ≤ n) × (byte_at after.2 3 ≡ p.expected)
  unfolding pump
  pump-sent h = ground arith

  pump-Tied : Tied frame p → Tied frame after.1
  unfolding pump send
  pump-Tied h = ground arith

  pub pump-reply :
      Tied frame p
      → Tied frame after.1
        × ((n : ℕ)
            → after.3 ≡ ok (some n)
            → (p.sent ≡ true) × (4 ≤ n) × (byte_at after.2 3 ≡ byte_at frame 3))
  pump-reply tied = (
    pump-Tied tied,
    λ n h. let (sent, long, same) = pump-sent h in (sent, long, same ∙ tied sent),
  )

  -- A time-out is answered only after the request was sent, on the last poll of the budget.
  pub pump-timeout : after.3 ≡ err timeout → (p.sent ≡ true) × (max_attempts ≤ p.attempts + 1)
  unfolding pump send
  pump-timeout h = ground arith

  -- No call panics.
  pub pump-ne-panic : (after.3 ≡ panic) → ⊥
  unfolding pump send
  pump-ne-panic h = ground arith

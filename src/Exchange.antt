-- ===== src/Exchange.antt =====
-- The exchange of one frame that every state machine of src/ethercat drives: its first call builds
-- the frame, and each call pumps it once. `poll` of src/ethercat/dc.rs is this code as a method.
pub mod Pending
pub mod Asked
pub mod Runs
use rtic_ecmaster.Base.{
  ℕ, zero, suc, ◌+◌, Option, none, some, List, [], ◌∷◌, ◌==◌, if◌then◌else◌, take, replicate, u8,
  Outcome, ok, err, panic, EcError, frame_too_short, Bool, true, false,
}
use rtic_ecmaster.Base.Checked.{◌>>=◌}
use rtic_ecmaster.Datagram.{Command, Reply, build, parse}
use rtic_ecmaster.Device.{Enet, Device, Pump, pump_new, pump_reset, pump}

-- PUMP_MAX_ATTEMPTS, and MAX_ATTEMPTS of the scan.
abbrev pub pump_max_attempts : ℕ
pump_max_attempts = 2000

-- The fields `pump`, `tx`, `tx_len` and `rx` of a state machine.
pub record Exchange : Type 0 where
  pub pump : Pump
  pub tx : List ℕ
  pub tx_len : ℕ
  pub rx : List ℕ

-- `dev: &mut Device` and `index: &mut u8`.
pub record Bus (S : Type 0) : Type 0 where
  pub dev : Device S
  pub index : ℕ

-- The start of an exchange, with buffers of these sizes.
abbrev pub exchange_new : ℕ → ℕ → Exchange
exchange_new tx_size rx_size = record {
  pump = pump_new;
  tx = replicate tx_size 0;
  tx_len = 0;
  rx = replicate rx_size 0;
}

-- `self.tx_len = 0`
abbrev pub rebuild : Exchange → Exchange
rebuild x = record x { tx_len = 0 }

-- What fills the buffer: the buffer, the frame's length and the next datagram index.
abbrev pub Writer : Type 0
Writer = List ℕ → ℕ → Option (List ℕ × ℕ × ℕ)

-- `alloc_index` and `datagram::build`
unfoldable pub single : Command → ℕ → ℕ → List ℕ → Writer
single cmd adp ado payload tx index =
    build tx index cmd adp ado payload >>= λ (b : List ℕ × ℕ). some (b.0, b.1, u8 (index + 1))

-- The same with `datagram::parse(&self.rx[..len]).ok_or(EcError::FrameTooShort)?`.
abbrev pub parsed : List ℕ → Outcome (Option ℕ) → Outcome (Option Reply)
parsed rx (ok none) = ok none
parsed rx (ok (some len)) = elim (parse (take len rx)) [
  | none ↦ err frame_too_short
  | some reply ↦ ok (some reply)
]
parsed rx (err e) = err e
parsed rx panic = panic

module _ {S : Type 0} (nic : Enet S) where
  -- The block `if self.tx_len == 0`.
  unfoldable pub ready : Writer → Exchange → ℕ → Option (Exchange × ℕ)
  ready write x index =
      let built : Option (Exchange × ℕ) = write x.tx index >>= λ (w : List ℕ × ℕ × ℕ).
      some (record x { tx = w.0; tx_len = w.1; pump = pump_reset x.pump }, w.2) in
      if x.tx_len == 0 then built else some (x, index)

  -- The block and the call of `Device::pump` behind it.
  unfoldable pub exchange : Writer → Exchange → Bus S → Exchange × Bus S × Outcome (Option ℕ)
  exchange write x bus = elim (ready write x bus.index) [
    | none ↦ (x, bus, panic)
    | some (x', index) ↦
        let (dev, p, rx, got) =
          pump nic bus.dev x'.pump (take x'.tx_len x'.tx) x'.rx pump_max_attempts in
        (record x' { pump = p; rx = rx }, record { dev = dev; index = index }, got)
  ]

  unfoldable pub ask : Writer → Exchange → Bus S → Exchange × Bus S × Outcome (Option Reply)
  ask write x bus = let (x', bus', got) = exchange write x bus in (x', bus', parsed x'.rx got)

-- The match on the answer of an exchange: what a state machine makes of it is the machine with its
-- exchange put back, and the handling of a reply.
abbrev pub answer {ℓ} :
    {S : Type 0} {F R : Type 0} {A : Type ℓ}
    → Exchange × Bus S × Outcome (Option R)
    → (Exchange → F)
    → A
    → (F → R → F × Outcome A)
    → F × Bus S × Outcome A
answer (x, bus, ok none) put pending handle = (put x, bus, ok pending)
answer (x, bus, ok (some reply)) put pending handle =
    let (f, o) = handle (put x) reply in (f, bus, o)
answer (x, bus, err e) put pending handle = (put x, bus, err e)
answer (x, bus, panic) put pending handle = (put x, bus, panic)

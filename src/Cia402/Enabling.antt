-- ===== src/Cia402/Enabling.antt =====
-- The sequencer with a drive behind it. The drive is no code of the repository: it is a function
-- from its statusword and the controlword to its next statusword.
use Prim.Native.Nat.{bit_and}
use rtic_ecmaster.Base.{ℕ, zero, suc, ◌≡◌, arith, Bool, true, false}
use rtic_ecmaster.Base.Bits.{bit_and_6f}
use rtic_ecmaster.Cia402.{
  DriveCommand, sw_state_mask, sw_switch_on_disabled, sw_ready_to_switch_on, sw_switched_on,
  sw_operation_enabled, cw_shutdown, cw_switch_on, cw_enable_op, next_controlword,
}

abbrev pub InState : ℕ → ℕ → Type 0
InState sw state = bit_and sw sw_state_mask ≡ state

-- Transitions 2, 3 and 4 of the CiA 402 power state machine, and that "enable operation" holds
-- an enabled drive.
pub record Follows (drive : ℕ → ℕ → ℕ) : Type 0 where
  pub shutdown :
      (sw : ℕ)
      → InState sw sw_switch_on_disabled
      → InState (drive sw cw_shutdown) sw_ready_to_switch_on
  pub switch_on :
      (sw : ℕ) → InState sw sw_ready_to_switch_on → InState (drive sw cw_switch_on) sw_switched_on
  pub enable :
      (sw : ℕ) → InState sw sw_switched_on → InState (drive sw cw_enable_op) sw_operation_enabled
  pub hold :
      (sw : ℕ)
      → InState sw sw_operation_enabled
      → InState (drive sw cw_enable_op) sw_operation_enabled

-- The statusword after `n` cycles under one command.
pub cycles : (ℕ → ℕ → ℕ) → DriveCommand → ℕ → ℕ → Bool → ℕ
cycles drive cmd zero sw fr_high = sw
cycles drive cmd (suc n) sw fr_high =
    let (cw, fr_high') = next_controlword sw cmd fr_high in
    cycles drive cmd n (drive sw cw) fr_high'

module _ (drive : ℕ → ℕ → ℕ) (follows : Follows drive) (cmd : DriveCommand) (on : cmd.enable ≡ true)
    (go : cmd.quick_stop ≡ false) where
  word_disabled :
      (sw : ℕ) (fr : Bool)
      → InState sw sw_switch_on_disabled
      → next_controlword sw cmd fr ≡ (cw_shutdown, false)
  unfolding next_controlword
  word_disabled sw fr h = ground (arith, bit_and_6f sw)

  word_ready :
      (sw : ℕ) (fr : Bool)
      → InState sw sw_ready_to_switch_on
      → next_controlword sw cmd fr ≡ (cw_switch_on, false)
  unfolding next_controlword
  word_ready sw fr h = ground (arith, bit_and_6f sw)

  word_on :
      (sw : ℕ) (fr : Bool)
      → InState sw sw_switched_on
      → next_controlword sw cmd fr ≡ (cw_enable_op, false)
  unfolding next_controlword
  word_on sw fr h = ground (arith, bit_and_6f sw)

  word_enabled :
      (sw : ℕ) (fr : Bool)
      → InState sw sw_operation_enabled
      → next_controlword sw cmd fr ≡ (cw_enable_op, false)
  unfolding next_controlword
  word_enabled sw fr h = ground (arith, bit_and_6f sw)

  stays_enabled :
      (n sw : ℕ) (fr : Bool)
      → InState sw sw_operation_enabled
      → InState (cycles drive cmd n sw fr) sw_operation_enabled
  unfolding cycles
  stays_enabled zero sw fr h = h
  stays_enabled (suc n) sw fr h =
      rw (word_enabled sw fr h) (stays_enabled n (drive sw cw_enable_op) false (follows.hold sw h))

  -- A drive that follows these transitions within a cycle each, and starts in "switch on disabled", is
  -- enabled after three cycles of an enable command without a quick stop, and in every later cycle.
  pub cycles-enabled :
      (n sw : ℕ) (fr_high : Bool)
      → InState sw sw_switch_on_disabled
      → InState (cycles drive cmd (suc (suc (suc n))) sw fr_high) sw_operation_enabled
  unfolding cycles
  cycles-enabled n sw fr h =
      let ready = follows.shutdown sw h in
      let on_state = follows.switch_on (drive sw cw_shutdown) ready in
      let enabled = follows.enable (drive (drive sw cw_shutdown) cw_switch_on) on_state in
      rw
        (
          word_disabled sw fr h,
          word_ready (drive sw cw_shutdown) false ready,
          word_on (drive (drive sw cw_shutdown) cw_switch_on) false on_state,
        )
        (stays_enabled n (drive (drive (drive sw cw_shutdown) cw_switch_on) cw_enable_op) false
          enabled)

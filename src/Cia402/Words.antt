-- ===== src/Cia402/Words.antt =====
-- What one controlword may command: enabling, quick-stop and the fault-reset pulse.
use Prim.Native.Nat.{bit_and}
use rtic_ecmaster.Base.{ℕ, ◌≡◌, ◌≢◌, ◌⊎◌, arith, Bool, true, false, ◌==◌, if◌then◌else◌}
use rtic_ecmaster.Cia402.{
  DriveCommand, is_fault, sw_state_mask, sw_switched_on, sw_operation_enabled, cw_enable_op,
  cw_switch_on, cw_shutdown, cw_quick_stop, cw_fault_reset, cw_disable_voltage, next_controlword,
}

-- "Enable operation" is commanded only to a drive without a fault that is switched on or enabled,
-- and only while the host asks to enable it and nothing asks for a quick stop.
pub next_controlword-enable :
    (sw : ℕ) (cmd : DriveCommand) (fr_high : Bool)
    → (next_controlword sw cmd fr_high).0 ≡ cw_enable_op
    → (is_fault sw ≡ false)
      × (cmd.enable ≡ true)
      × (cmd.quick_stop ≡ false)
      × ((bit_and sw sw_state_mask ≡ sw_switched_on)
          ⊎ (bit_and sw sw_state_mask ≡ sw_operation_enabled))
unfolding next_controlword
next_controlword-enable sw cmd fr_high h = ground arith

-- Under a quick stop a drive without a fault gets the quick-stop word if it is enabled, stays
-- switched on if it is switched on, and gets "shutdown" in every other state.
pub next_controlword-quick_stop :
    (sw : ℕ) (cmd : DriveCommand) (fr_high : Bool)
    → cmd.quick_stop ≡ true
    → is_fault sw ≡ false
    → (next_controlword sw cmd fr_high).0 ≡ (
        let state = bit_and sw sw_state_mask in
        if state == sw_operation_enabled
        then cw_quick_stop
        else if state == sw_switched_on
        then cw_switch_on
        else cw_shutdown)
unfolding next_controlword
next_controlword-quick_stop sw cmd fr_high q f = ground arith

-- The reset bit is a pulse: it is sent only to a faulted drive on a request, and never in two
-- cycles on end, whatever the statuswords and commands of the two cycles are.
pub next_controlword-pulse :
    (sw sw' : ℕ) (cmd cmd' : DriveCommand) (fr_high : Bool)
    → (next_controlword sw cmd fr_high).0 ≡ cw_fault_reset
    → (is_fault sw ≡ true)
      × (cmd.fault_reset ≡ true)
      × (fr_high ≡ false)
      × ((next_controlword sw' cmd' (next_controlword sw cmd fr_high).1).0 ≢ cw_fault_reset)
unfolding next_controlword
next_controlword-pulse sw sw' cmd cmd' fr_high h =
    (ground arith, ground arith, ground arith, λ e. ground arith)

-- A request held over two cycles of a fault gives one rising edge of the reset bit.
pub next_controlword-edge :
    (sw sw' : ℕ) (cmd : DriveCommand) (fr_high : Bool)
    → is_fault sw ≡ true
    → is_fault sw' ≡ true
    → cmd.fault_reset ≡ true
    → let (cw, fr_high') = next_controlword sw cmd fr_high in
      let cw' = (next_controlword sw' cmd fr_high').0 in
      ((cw ≡ cw_disable_voltage) × (cw' ≡ cw_fault_reset))
      ⊎ ((cw ≡ cw_fault_reset) × (cw' ≡ cw_disable_voltage))
unfolding next_controlword
next_controlword-edge sw sw' cmd fr_high f f' r = ground arith

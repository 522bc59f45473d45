-- ===== src/Cia402.antt =====
-- src/ethercat/cia402.rs: the CiA 402 sequencer, which writes each drive's controlword from its
-- statusword and the host's command.
pub mod Words
pub mod Enabling
pub mod Commanded
use Prim.Native.Nat.{bit_and}
use rtic_ecmaster.Base.{
  ℕ, ◌%◌, Bool, true, false, not, ◌&&◌, ◌||◌, Option, none, some, List, [], ◌∷◌, ltb, ◌==◌,
  if◌then◌else◌, length, test_bit, u16, ◌++◌,
}
use rtic_ecmaster.Config.{PinCfg, is_output, name_eq, strip_suffix}
use rtic_ecmaster.ProcessData.{read_value, write_value}

-- Statusword masks and states.
abbrev pub sw_state_mask : ℕ
sw_state_mask = 0x006F

abbrev pub sw_switch_on_disabled : ℕ
sw_switch_on_disabled = 0x0040

abbrev pub sw_ready_to_switch_on : ℕ
sw_ready_to_switch_on = 0x0021

abbrev pub sw_switched_on : ℕ
sw_switched_on = 0x0023

abbrev pub sw_operation_enabled : ℕ
sw_operation_enabled = 0x0027

-- `sw & SW_FAULT != 0`, bit 3.
abbrev pub is_fault : ℕ → Bool
is_fault sw = test_bit sw 3

-- Controlwords.
abbrev pub cw_shutdown : ℕ
cw_shutdown = 0x0006

abbrev pub cw_switch_on : ℕ
cw_switch_on = 0x0007

abbrev pub cw_enable_op : ℕ
cw_enable_op = 0x000F

abbrev pub cw_quick_stop : ℕ
cw_quick_stop = 0x0002

abbrev pub cw_fault_reset : ℕ
cw_fault_reset = 0x0080

abbrev pub cw_disable_voltage : ℕ
cw_disable_voltage = 0x0000

pub record DriveCommand : Type 0 where
  pub enable : Bool
  pub fault_reset : Bool
  pub quick_stop : Bool

-- The controlword of a drive without a fault, by its state.
controlword_of : ℕ → DriveCommand → ℕ
controlword_of state cmd =
    let go = cmd.enable && not cmd.quick_stop in
    if cmd.quick_stop && state == sw_operation_enabled
    then cw_quick_stop
    else if state == sw_switch_on_disabled
    then cw_shutdown
    else if state == sw_ready_to_switch_on
    then (if go then cw_switch_on else cw_shutdown)
    else if state == sw_switched_on
    then (if go then cw_enable_op else cw_switch_on)
    else if state == sw_operation_enabled
    then (if go then cw_enable_op else cw_switch_on)
    else cw_shutdown

-- `next_controlword`, giving the controlword and the new `fr_high`.
unfoldable pub next_controlword : ℕ → DriveCommand → Bool → ℕ × Bool
unfolding controlword_of
next_controlword sw cmd fr_high =
    let pulse : ℕ × Bool =
      (if not fr_high then cw_fault_reset else cw_disable_voltage, not fr_high) in
    let faulted : ℕ × Bool = if cmd.fault_reset then pulse else (cw_disable_voltage, false) in
    if is_fault sw then faulted else (controlword_of (bit_and sw sw_state_mask) cmd, false)

-- `Binding`
pub record Binding : Type 0 where
  pub cw : PinCfg
  pub sw : PinCfg
  pub fr_high : Bool

-- The name suffixes "-controlword" and "-statusword".
abbrev pub controlword_suffix : List ℕ
controlword_suffix =
    b'-' ∷ b'c' ∷ b'o' ∷ b'n' ∷ b't' ∷ b'r' ∷ b'o' ∷ b'l' ∷ b'w' ∷ b'o' ∷ b'r' ∷ b'd' ∷ []

abbrev pub statusword_suffix : List ℕ
statusword_suffix = b'-' ∷ b's' ∷ b't' ∷ b'a' ∷ b't' ∷ b'u' ∷ b's' ∷ b'w' ∷ b'o' ∷ b'r' ∷ b'd' ∷ []

-- Whether a pin's name is the prefix with this suffix.
abbrev pub has_prefix : List ℕ → Option (List ℕ) → Bool
has_prefix prefix none = false
has_prefix prefix (some p) = name_eq p prefix

-- The inner loop of `Cia402::new`: the first input pin that is the prefix's statusword.
unfoldable pub find_statusword : List PinCfg → List ℕ → Option PinCfg
find_statusword [] prefix = none
find_statusword (sw ∷ pins) prefix =
    let rest = find_statusword pins prefix in
    if is_output sw
    then rest
    else if has_prefix prefix (strip_suffix statusword_suffix sw.name)
    then some sw
    else rest

-- `EC_MAX_SLAVES`, the capacity of the drive list.
abbrev pub max_slaves : ℕ
max_slaves = 32

-- `let _ = drives.push(…)`: a full list drops the binding.
abbrev pub push_drive : List Binding → PinCfg → Option PinCfg → List Binding
push_drive drives cw none = drives
push_drive drives cw (some sw) =
    if ltb (length drives) max_slaves
    then drives ++ (record { cw = cw; sw = sw; fr_high = false } ∷ [])
    else drives

abbrev pub bind_prefix : List PinCfg → List Binding → PinCfg → Option (List ℕ) → List Binding
bind_prefix pins drives cw none = drives
bind_prefix pins drives cw (some prefix) = push_drive drives cw (find_statusword pins prefix)

-- The outer loop of `Cia402::new`.
unfoldable pub discover : List PinCfg → List PinCfg → List Binding → List Binding
discover pins [] drives = drives
discover pins (cw ∷ cws) drives = discover pins cws (
    if is_output cw
    then bind_prefix pins drives cw (strip_suffix controlword_suffix cw.name)
    else drives)

-- `Cia402::new` over the pins of the bus.
unfoldable pub new : List PinCfg → List Binding
new pins = discover pins pins []

-- `has_drives`
unfoldable pub has_drives : List Binding → Bool
has_drives [] = false
has_drives (d ∷ ds) = true

-- `any_fault`
unfoldable pub any_fault : List Binding → List ℕ → Bool
any_fault [] image = false
any_fault (d ∷ ds) image = is_fault (u16 (read_value image d.sw)) || any_fault ds image

-- `step`, giving the bindings and the image.
unfoldable pub step : List Binding → List ℕ → DriveCommand → List Binding × List ℕ
step [] image cmd = ([], image)
step (d ∷ ds) image cmd =
    let sw = u16 (read_value image d.sw) in
    let (cw, fr_high) = next_controlword sw cmd d.fr_high in
    let (ds', image') = step ds (write_value image d.cw cw) cmd in
    (record d { fr_high = fr_high } ∷ ds', image')

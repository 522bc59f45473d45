-- ===== src/Cyclic/Host.antt =====
-- The tick with the host bridge of src/ethercat/cyclic.rs: drive control, safe state and status.
use rtic_ecmaster.Base.{
  ℕ, ◌+◌, min, Bool, true, ◌||◌, not, Option, some, ltb, leb, ◌≡◌, ◌≢◌, ◌⊎◌, arith, if◌then◌else◌,
}
use rtic_ecmaster.Base.Checked.{◌>>=◌}
use rtic_ecmaster.Cia402
use rtic_ecmaster.Cia402.{DriveCommand, next_controlword, cw_enable_op}
use rtic_ecmaster.Cia402.Words.{next_controlword-enable}
use rtic_ecmaster.Domain.{live_image, with_image}
use rtic_ecmaster.Device.{Enet, Device}
use rtic_ecmaster.HostBridge.{
  Layout, HostBridge, ReplyStatus, tick_watchdog, apply_outputs, build_reply, flag_bit,
  enable_requested, fault_reset_requested, quick_stop_requested, motion_underrun,
}
use rtic_ecmaster.Cyclic.{
  Cyclic, Phase, priming, requesting_op, operational, faulted, phase_eq, host_wdog_limit_cycles,
}
use rtic_ecmaster.Cyclic.Send.{begin_tick, receive_outstanding, send}

-- The command of `apply_drive_control`.
unfoldable pub drive_command : Cyclic → HostBridge → Bool → Bool → DriveCommand
drive_command c host host_timeout underrun = record {
  enable = enable_requested host;
  fault_reset = fault_reset_requested host;
  quick_stop = quick_stop_requested host || host_timeout || underrun || phase_eq c.phase faulted;
}

-- `apply_drive_control`
unfoldable pub apply_drive_control : Cyclic → HostBridge → Bool → Bool → Cyclic
apply_drive_control c host host_timeout underrun =
    let (bindings, image) =
      Cia402.step c.cia402 (live_image c.domain) (drive_command c host host_timeout underrun) in
    if not host.out_valid || not (Cia402.has_drives c.cia402)
    then c
    else record c { cia402 = bindings; domain = with_image c.domain image }

abbrev pub phase_code : Phase → ℕ
phase_code priming = 0
phase_code requesting_op = 1
phase_code operational = 2
phase_code faulted = 3

-- `reply_status`
unfoldable pub reply_status : Cyclic → Bool → Bool → ReplyStatus
reply_status c host_timeout underrun = record {
  link_up = ltb 0 c.domain.last_wkc;
  phase = phase_code c.phase;
  wkc = min c.domain.last_wkc 255;
  expected_wkc = min c.domain.expected_wkc 255;
  cycle_index = c.total_cycles;
  fault_flags =
      flag_bit (phase_eq c.phase faulted) 1
      + flag_bit (Cia402.any_fault c.cia402 (live_image c.domain)) 2
      + flag_bit host_timeout 4
      + flag_bit underrun 8;
  host_timeout = host_timeout;
}

-- The part of `tick_with_host` between receiving and sending: the engine, the bridge, and whether
-- the host timed out and the motion stream ran dry.
unfoldable pub apply_host : Layout → Cyclic → HostBridge → Cyclic × HostBridge × Bool × Bool
apply_host layout c host =
    let watched = tick_watchdog host in
    let host_timeout = leb host_wdog_limit_cycles watched.wdog_stall_cycles in
    let (host', image) = apply_outputs layout watched (live_image c.domain) c.total_cycles in
    let underrun = motion_underrun host' in
    let c' : Cyclic = record c { domain = with_image c.domain image } in
    (apply_drive_control c' host' host_timeout underrun, host', host_timeout, underrun)

module _ {S : Type 0} (nic : Enet S) (layout : Layout) where
  -- `tick_with_host`
  unfoldable pub tick_with_host :
      Cyclic → Device S → ℕ → ℕ → HostBridge → Option (Cyclic × Device S × ℕ × HostBridge)
  tick_with_host c dev index latency host =
      let (c1, dev1) = receive_outstanding nic (begin_tick c latency) dev in
      let (c2, host1, host_timeout, underrun) = apply_host layout c1 host in
      send nic c2 dev1 index >>= λ (sent : Cyclic × Device S × ℕ). some (
        sent.0,
        sent.1,
        sent.2,
        build_reply layout host1 (live_image sent.0.domain)
            (reply_status sent.0 host_timeout underrun),
      )

-- In a safe state, whatever its cause, no drive is commanded to enable operation.
pub drive_command-safe :
    (c : Cyclic) (host : HostBridge) (host_timeout underrun : Bool) (sw : ℕ) (fr_high : Bool)
    → (quick_stop_requested host ≡ true)
      ⊎ ((host_timeout ≡ true) ⊎ ((underrun ≡ true) ⊎ (c.phase ≡ faulted)))
    → (next_controlword sw (drive_command c host host_timeout underrun) fr_high).0 ≢ cw_enable_op
unfolding drive_command
drive_command-safe c host host_timeout underrun sw fr_high h e =
    let (_, _, go, _) =
      next_controlword-enable sw (drive_command c host host_timeout underrun) fr_high e in
    ground arith

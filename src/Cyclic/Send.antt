-- ===== src/Cyclic/Send.antt =====
-- The sending half of src/ethercat/cyclic.rs and the tick. `none` is the panic of a write past the
-- frame buffer, or of an index past the slave list.
use rtic_ecmaster.Base.{
  ℕ, zero, suc, ◌+◌, ◌%◌, Bool, true, false, not, Option, none, some, List, [], ◌∷◌, ◌++◌, ltb, leb,
  ◌==◌, if◌then◌else◌, length, get_elem?, take, replicate, u8, u32, Outcome, ok, err, panic,
}
use rtic_ecmaster.Base.Checked.{◌>>=◌}
use rtic_ecmaster.Datagram.{Command, fpwr, fprd, armw, append, autoinc_adp}
use rtic_ecmaster.Domain.{build_lrw}
use rtic_ecmaster.Device.{Enet, Device, ecat_rx_len}
use rtic_ecmaster.Device
use rtic_ecmaster.Cyclic.{
  Cyclic, SlaveRt, Appended, control, dc_armw, dc_diff, al_poll, status, al_op, phase_eq,
  requesting_op, operational, max_appended, receive,
}

-- Registers of src/ethercat/globals.rs.
abbrev pub al_control_reg : ℕ
al_control_reg = 0x0120

abbrev pub al_status_reg : ℕ
al_status_reg = 0x0130

abbrev pub dc_sys_time_reg : ℕ
dc_sys_time_reg = 0x0910

abbrev pub dc_sys_time_diff_reg : ℕ
dc_sys_time_diff_reg = 0x092C

-- `alloc_index`: the index used and the next one.
abbrev pub next_index : ℕ → ℕ
next_index index = u8 (index + 1)

-- `let _ = self.appended.push(…)`
abbrev pub push_appended : List Appended → Appended → List Appended
push_appended kinds kind = if ltb (length kinds) max_appended then kinds ++ (kind ∷ []) else kinds

-- The pattern of every appended datagram: the frame grows, and its kind is recorded.
unfoldable pub append_kind : Cyclic → ℕ → Command → ℕ → ℕ → List ℕ → Appended → Option Cyclic
append_kind c index cmd adp ado payload kind = do
  (tx, tx_len) ← append c.tx index cmd adp ado payload
  some (record c { tx = tx; tx_len = tx_len; appended = push_appended c.appended kind })

-- The `while` loop of `append_op_request`, over the slaves left.
unfoldable pub skip_reached : ℕ → Cyclic → Cyclic
skip_reached zero c = c
skip_reached (suc rounds) c =
    let rest =
      skip_reached rounds (record c { op_cursor = c.op_cursor + 1; op_ctrl_phase = true }) in
    elim (get_elem? c.slaves c.op_cursor) [ none ↦ c | some s ↦ if s.reached_op then rest else c ]

-- The datagram of `append_op_request` for the slave under the cursor.
unfoldable pub request_op : Cyclic → ℕ → SlaveRt → Option Cyclic
request_op c index s = do
  c' ←
      (if c.op_ctrl_phase
        then append_kind c index fpwr s.station al_control_reg (al_op ∷ 0 ∷ []) control
        else append_kind c index fprd s.station al_status_reg (0 ∷ 0 ∷ []) (status c.op_cursor))
  some (record c' { op_ctrl_phase = not c'.op_ctrl_phase })

-- `append_op_request`
unfoldable pub append_op_request : Cyclic → ℕ → Option (Cyclic × ℕ)
append_op_request c index =
    let c' = skip_reached (length c.slaves) c in
    elim (get_elem? c'.slaves c'.op_cursor) [
      | none ↦ some (c', index)
      | some s ↦ request_op c' index s >>= λ c''. some (c'', next_index index)
    ]

-- `follower_station`
unfoldable pub first_follower : List SlaveRt → ℕ → Option SlaveRt
first_follower [] ref_pos = none
first_follower (s ∷ ss) ref_pos =
    let rest = first_follower ss ref_pos in if s.ring_pos == ref_pos then rest else some s

unfoldable pub follower_station : Cyclic → ℕ
follower_station c = elim (first_follower c.slaves c.ref_ring_pos) [
  | some s ↦ s.station
  | none ↦ elim (get_elem? c.slaves 0) [ none ↦ 0 | some s ↦ s.station ]
]

-- The telemetry datagram of `append_monitor` on a bus of two slaves or more.
unfoldable pub append_telemetry : Cyclic → ℕ → Option Cyclic
append_telemetry c index =
    let cursor = (c.mon_cursor + 1) % length c.slaves in
    let drift_read =
      append_kind c index fprd (follower_station c) dc_sys_time_diff_reg (replicate 4 0) dc_diff in
    let poll_read = get_elem? c.slaves cursor >>= λ (s : SlaveRt).
    append_kind (record c { mon_cursor = cursor }) index fprd s.station al_status_reg (0 ∷ 0 ∷ [])
      al_poll in
    if c.mon_toggle then drift_read else poll_read

-- `append_monitor`
unfoldable pub append_monitor : Cyclic → ℕ → Option (Cyclic × ℕ)
append_monitor c index =
    let single : Option (Cyclic × ℕ) = elim (get_elem? c.slaves 0) [
      | none ↦ some (c, index)
      | some s ↦
          append_kind c index fprd s.station dc_sys_time_diff_reg (replicate 4 0) dc_diff >>= λ c'.
          some (c', next_index index)
    ] in
    let several =
      append_kind c index armw (autoinc_adp c.ref_ring_pos) dc_sys_time_reg (replicate 8 0) dc_armw
      >>= λ c1. append_telemetry c1 (next_index index) >>= λ c2.
          some (record c2 { mon_toggle = not c2.mon_toggle }, next_index (next_index index)) in
    if leb (length c.slaves) 1 then single else several

-- `send` up to the NIC: the frame of this cycle.
unfoldable pub build_frame : Cyclic → ℕ → Option (Cyclic × ℕ)
build_frame c index = do
  (tx, tx_len) ← build_lrw c.domain c.tx index
  let c' = record c { tx = tx; tx_len = tx_len; expected_index = index; appended = [] }
  (if phase_eq c'.phase requesting_op
      then append_op_request c' (next_index index)
      else if phase_eq c'.phase operational
      then append_monitor c' (next_index index)
      else some (c', next_index index))

-- `record_latency`
abbrev pub record_latency : Cyclic → ℕ → Cyclic
record_latency c ticks = record c {
  lat_min_ticks = if ltb ticks c.lat_min_ticks then ticks else c.lat_min_ticks;
  lat_max_ticks = if ltb c.lat_max_ticks ticks then ticks else c.lat_max_ticks;
}

-- `begin_tick`, with the latency that the timer shows.
unfoldable pub begin_tick : Cyclic → ℕ → Cyclic
begin_tick c latency =
    let c' = record_latency c latency in record c' { total_cycles = u32 (c'.total_cycles + 1) }

abbrev pub is_ok : Outcome (Unit {0}) → Bool
is_ok (ok _) = true
is_ok (err e) = false
is_ok panic = false

module _ {S : Type 0} (nic : Enet S) where
  -- `send`
  unfoldable pub send : Cyclic → Device S → ℕ → Option (Cyclic × Device S × ℕ)
  send c dev index = do
    (c', index') ← build_frame c index
    let (dev', sent) = Device.send nic dev (take c'.tx_len c'.tx)
    some (record c' { outstanding = is_ok sent }, dev', index')

  -- The receiving part of both ticks.
  unfoldable pub receive_outstanding : Cyclic → Device S → Cyclic × Device S
  receive_outstanding c dev =
      let (c', dev') = receive nic ecat_rx_len c dev in
      if c.outstanding then (record c' { outstanding = false }, dev') else (c, dev)

  -- `tick`
  unfoldable pub tick : Cyclic → Device S → ℕ → ℕ → Option (Cyclic × Device S × ℕ)
  tick c dev index latency =
      let (c', dev') = receive_outstanding (begin_tick c latency) dev in send c' dev' index

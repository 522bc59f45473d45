-- ===== src/Dc.antt =====
-- src/ethercat/dc.rs: the distributed clock of one slave, from the measurement of its offset and
-- delay to the start of SYNC0.
pub mod Times
pub mod Ends
use rtic_ecmaster.Base.{
  ℕ, ◌+◌, ◌-◌, ◌*◌, ◌/◌, ◌^◌, max, Bool, true, false, not, ◌&&◌, ◌||◌, Option, none, some, List, [],
  ◌∷◌, ◌++◌, ltb, leb, ◌==◌, if◌then◌else◌, length, take, replicate, u8, u32, u64, le16, le32, le64,
  read_le32, read_le64, get_or, Outcome, ok, err, panic, EcError, ok_or, working_counter_mismatch,
  frame_too_short,
}
use rtic_ecmaster.Base.Checked.{◌>>=◌}
use rtic_ecmaster.Config.{DcCfg}
use rtic_ecmaster.Cyclic.Send.{dc_sys_time_reg}
use rtic_ecmaster.Datagram.{
  Command, bwr, fprd, fpwr, Reply, build, append, parse_at, frame_header_size,
}
use rtic_ecmaster.Device.{Enet}
use rtic_ecmaster.Exchange.{
  Exchange, Bus, Writer, exchange_new, rebuild, single, exchange, ask, answer,
}

abbrev pub start_margin_ns : ℕ
start_margin_ns = 100000000

abbrev pub max_delay_ns : ℕ
max_delay_ns = 10000

-- Registers of src/ethercat/globals.rs.
abbrev pub dc_recv_time_reg : ℕ
dc_recv_time_reg = 0x0900

abbrev pub dc_sys_time_offset_reg : ℕ
dc_sys_time_offset_reg = 0x0920

abbrev pub dc_sys_time_delay_reg : ℕ
dc_sys_time_delay_reg = 0x0928

abbrev pub dc_activation_reg : ℕ
dc_activation_reg = 0x0980

abbrev pub dc_cycle_start_reg : ℕ
dc_cycle_start_reg = 0x0990

abbrev pub dc_sync0_cycle_reg : ℕ
dc_sync0_cycle_reg = 0x09A0

pub record DcRef : Type 0 where
  pub ref_station : ℕ
  pub compensate : Bool

-- `DcRef::reference`
abbrev pub reference : DcRef
reference = record { ref_station = 0; compensate = false }

pub data State : Type 0 where
  comp_latch comp_read_ports comp_write_delay comp_read_times comp_write_offset : State
  latch_time read_time write_cycle write_start activate done : State

-- `FsmDc`; `link` is its pump and buffers.
pub record FsmDc : Type 0 where
  pub station : ℕ
  pub cfg : DcCfg
  pub dc_ref : DcRef
  pub state : State
  pub link : Exchange
  pub start_time : ℕ
  pub offset : ℕ
  pub delay : ℕ

-- `FsmDc::new`
unfoldable pub new : ℕ → DcCfg → DcRef → FsmDc
new station cfg dc_ref = record {
  station = station;
  cfg = cfg;
  dc_ref = dc_ref;
  state = if dc_ref.compensate then comp_latch else latch_time;
  link = exchange_new 96 128;
  start_time = 0;
  offset = 0;
  delay = 0;
}

-- `cyclic_start`, in wrapping 64-bit arithmetic.
unfoldable pub cyclic_start : DcCfg → ℕ → ℕ
cyclic_start cfg now =
    let cycle = max cfg.sync0_cycle_ns 1 in
    let target = u64 (now + start_margin_ns) in
    u64 ((target / cycle + 1) * cycle + cfg.sync0_shift_ns)

-- `propagation_delay`; a negative half difference rounds towards 0, and is 0 or out of range.
unfoldable pub propagation_delay : List ℕ → List ℕ → ℕ
propagation_delay ref_ports fol_ports =
    let ref_rt = u32 (get_or ref_ports 1 0 + 2 ^ 32 - get_or ref_ports 0 0) in
    let fol_rt = u32 (get_or fol_ports 1 0 + 2 ^ 32 - get_or fol_ports 0 0) in
    let one_way = (ref_rt - fol_rt) / 2 in
    if ltb ref_rt fol_rt then 0 else if leb one_way max_delay_ns then one_way else 0

-- `read_ports` and `read_u64`
unfoldable pub read_ports : List ℕ → Outcome (List ℕ)
read_ports bytes =
    if ltb (length bytes) 16
    then err frame_too_short
    else ok (read_le32 bytes 0 ∷ read_le32 bytes 4 ∷ read_le32 bytes 8 ∷ read_le32 bytes 12 ∷ [])

unfoldable pub read_u64 : List ℕ → Outcome ℕ
read_u64 bytes = if ltb (length bytes) 8 then err frame_too_short else ok (read_le64 bytes 0)

-- `?` on a `Result`.
infixl 5 ◌>>?◌
abbrev pub ◌>>?◌ {ℓ κ} : {A : Type ℓ} {B : Type κ} → Outcome A → (A → Outcome B) → Outcome B
ok a >>? f = f a
err e >>? f = err e
panic >>? f = panic

-- `parse_two_port_reads`; the second read starts where the first reply says that one follows, and
-- at 0 where it says that none does.
unfoldable pub parse_two_port_reads : List ℕ → Outcome (List ℕ × List ℕ)
parse_two_port_reads frame =
    ok_or (parse_at frame frame_header_size) frame_too_short >>? λ (d0 : Reply × ℕ).
    ok_or (parse_at frame d0.1) frame_too_short >>? λ (d1 : Reply × ℕ).
    (if not (d0.0.working_counter == 1) || not (d1.0.working_counter == 1)
      then err working_counter_mismatch
      else read_ports d0.0.payload >>? λ (p0 : List ℕ).
          read_ports d1.0.payload >>? λ (p1 : List ℕ). ok (p0, p1))

-- `parse_three_u64_reads`
unfoldable pub parse_three_u64_reads : List ℕ → Outcome (ℕ × ℕ × ℕ)
parse_three_u64_reads frame =
    ok_or (parse_at frame frame_header_size) frame_too_short >>? λ (d0 : Reply × ℕ).
    ok_or (parse_at frame d0.1) frame_too_short >>? λ (d1 : Reply × ℕ).
    ok_or (parse_at frame d1.1) frame_too_short >>? λ (d2 : Reply × ℕ).
    (if not (d0.0.working_counter == 1)
        || not (d1.0.working_counter == 1)
        || not (d2.0.working_counter == 1)
      then err working_counter_mismatch
      else read_u64 d0.0.payload >>? λ (v0 : ℕ). read_u64 d1.0.payload >>? λ (v1 : ℕ).
          read_u64 d2.0.payload >>? λ (v2 : ℕ). ok (v0, v1, v2))

abbrev pub put : FsmDc → Exchange → FsmDc
put f x = record f { link = x }

-- `advance`
abbrev pub advance : FsmDc → State → FsmDc
advance f next = record f { state = next; link = rebuild f.link }

-- A reply whose working counter must be 1, and the next state.
unfoldable pub written : State → FsmDc → Reply → FsmDc × Outcome Bool
written next f reply =
    if reply.working_counter == 1
    then (advance f next, ok false)
    else (f, err working_counter_mismatch)

unfoldable pub latched : FsmDc → Reply → FsmDc × Outcome Bool
latched f reply =
    if reply.working_counter == 0
    then (f, err working_counter_mismatch)
    else (advance f comp_read_ports, ok false)

-- The frame with the port times.
abbrev pub take_ports : FsmDc → Outcome (List ℕ × List ℕ) → FsmDc × Outcome Bool
take_ports f (ok (ref_ports, fol_ports)) = (
  advance (record f { delay = propagation_delay ref_ports fol_ports }) comp_write_delay,
  ok false,
)
take_ports f (err e) = (f, err e)
take_ports f panic = (f, panic)

unfoldable pub ports_read : FsmDc → ℕ → FsmDc × Outcome Bool
ports_read f len = take_ports f (parse_two_port_reads (take len f.link.rx))

-- `old_off.wrapping_add(ref_sys.wrapping_sub(fol_sys))`
abbrev pub new_offset : ℕ → ℕ → ℕ → ℕ
new_offset ref_sys fol_sys old_off = u64 (old_off + u64 (ref_sys + 2 ^ 64 - fol_sys))

-- The frame with the system times and the offset.
abbrev pub take_times : FsmDc → Outcome (ℕ × ℕ × ℕ) → FsmDc × Outcome Bool
take_times f (ok (ref_sys, fol_sys, old_off)) = (
  advance
      (record f {
        offset = new_offset ref_sys fol_sys old_off;
        start_time = cyclic_start f.cfg ref_sys;
      })
      comp_write_offset,
  ok false,
)
take_times f (err e) = (f, err e)
take_times f panic = (f, panic)

unfoldable pub times_read : FsmDc → ℕ → FsmDc × Outcome Bool
times_read f len = take_times f (parse_three_u64_reads (take len f.link.rx))

-- The reply with the system time; its working counter is not looked at.
unfoldable pub time_read : FsmDc → Reply → FsmDc × Outcome Bool
time_read f reply =
    let now = if leb 8 (length reply.payload) then read_le64 reply.payload 0 else 0 in
    (advance (record f { start_time = cyclic_start f.cfg now }) write_cycle, ok false)

unfoldable pub activated : FsmDc → Reply → FsmDc × Outcome Bool
activated f reply =
    if reply.working_counter == 1
    then (record f { state = done }, ok true)
    else (f, err working_counter_mismatch)

-- The frames of two and of three reads.
unfoldable pub read_ports_of : ℕ → ℕ → Writer
read_ports_of ref_station station tx index = do
  (tx1, _) ← build tx index fprd ref_station dc_recv_time_reg (replicate 16 0)
  (tx2, n) ← append tx1 (u8 (index + 1)) fprd station dc_recv_time_reg (replicate 16 0)
  some (tx2, n, u8 (u8 (index + 1) + 1))

unfoldable pub read_times_of : ℕ → ℕ → Writer
read_times_of ref_station station tx index = do
  (tx1, _) ← build tx index fprd ref_station dc_sys_time_reg (replicate 8 0)
  (tx2, _) ← append tx1 (u8 (index + 1)) fprd station dc_sys_time_reg (replicate 8 0)
  (tx3, n) ←
      append tx2 (u8 (u8 (index + 1) + 1)) fprd station dc_sys_time_offset_reg (replicate 8 0)
  some (tx3, n, u8 (u8 (u8 (index + 1) + 1) + 1))

module _ {S : Type 0} (nic : Enet S) where
  -- `transact`, or `poll` with a parse, and what is made of the reply.
  abbrev pub talk :
      FsmDc → Bus S → Writer → (FsmDc → Reply → FsmDc × Outcome Bool) → FsmDc × Bus S × Outcome Bool
  talk f bus write handle = answer (ask nic write f.link bus) (put f) false handle

  -- `pump_current` on a frame of several datagrams.
  abbrev pub talk_frame :
      FsmDc → Bus S → Writer → (FsmDc → ℕ → FsmDc × Outcome Bool) → FsmDc × Bus S × Outcome Bool
  talk_frame f bus write handle = answer (exchange nic write f.link bus) (put f) false handle

  -- `step` in the given state.
  unfoldable pub step_in : State → FsmDc → Bus S → FsmDc × Bus S × Outcome Bool
  step_in comp_latch f bus = talk f bus (single bwr 0x0000 dc_recv_time_reg (replicate 4 0)) latched
  step_in comp_read_ports f bus =
      talk_frame f bus (read_ports_of f.dc_ref.ref_station f.station) ports_read
  step_in comp_write_delay f bus =
      talk f bus (single fpwr f.station dc_sys_time_delay_reg (le32 f.delay))
        (written comp_read_times)
  step_in comp_read_times f bus =
      talk_frame f bus (read_times_of f.dc_ref.ref_station f.station) times_read
  step_in comp_write_offset f bus =
      talk f bus (single fpwr f.station dc_sys_time_offset_reg (le64 f.offset))
        (written write_cycle)
  step_in latch_time f bus =
      talk f bus (single fpwr f.station dc_recv_time_reg (replicate 4 0)) (written read_time)
  step_in read_time f bus =
      talk f bus (single fprd f.station dc_sys_time_reg (replicate 8 0)) time_read
  step_in write_cycle f bus =
      talk f bus
        (single fpwr f.station dc_sync0_cycle_reg
          (le32 f.cfg.sync0_cycle_ns ++ le32 f.cfg.sync1_cycle_ns))
        (written write_start)
  step_in write_start f bus =
      talk f bus (single fpwr f.station dc_cycle_start_reg (le64 f.start_time)) (written activate)
  step_in activate f bus =
      talk f bus (single fpwr f.station dc_activation_reg (le16 f.cfg.assign_activate)) activated
  step_in done f bus = (f, bus, ok true)

  -- `step`
  unfoldable pub step : FsmDc → Bus S → FsmDc × Bus S × Outcome Bool
  step f bus = step_in f.state f bus

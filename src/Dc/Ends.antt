-- ===== src/Dc/Ends.antt =====
-- The set-up of a distributed clock ends.
use rtic_ecmaster.Base.{
  ℕ, ◌+◌, ◌*◌, ◌≤◌, ◌<◌, ◌≡◌, ◌≢◌, refl, arith, Bool, false, List, [], ◌∷◌, length, take, replicate,
  le16, le32, le64, ◌++◌, u8, Outcome, ok, err, panic,
}
use rtic_ecmaster.Config.{DcCfg}
use rtic_ecmaster.Cyclic.Send.{dc_sys_time_reg}
use rtic_ecmaster.Datagram.{Command, Reply, bwr, fprd, fpwr}
use rtic_ecmaster.Datagram.Frames.{request, build-IsFrame, append-IsFrame}
use rtic_ecmaster.Device.{Enet}
use rtic_ecmaster.Exchange.{Exchange, Bus, Writer, single, exchange, ask}
use rtic_ecmaster.Exchange.Pending.{
  Writes, exchange_left, single-Writes, ask-Fair, exchange-Fair, answer-elim,
}
use rtic_ecmaster.Exchange.Runs.{Good, Final, run, run-Final}
use rtic_ecmaster.Dc.{
  talk, talk_frame, step_in, step, dc_sys_time_delay_reg, dc_activation_reg, dc_cycle_start_reg,
  dc_sync0_cycle_reg, latched, written, time_read, activated, DcRef, State, comp_latch,
  comp_read_ports, comp_write_delay, comp_read_times, comp_write_offset, latch_time, read_time,
  write_cycle, write_start, activate, done, FsmDc, new, put, dc_recv_time_reg,
  dc_sys_time_offset_reg, read_ports_of, read_times_of, ports_read, times_read, take_ports,
  take_times, parse_two_port_reads, parse_three_u64_reads, read_ports, read_u64,
}

read_ports_of-Writes : (ref_station station : ℕ) → Writes 96 (read_ports_of ref_station station)
unfolding read_ports_of
read_ports_of-Writes ref_station station tx index size =
    let (tx1, n1, e1, frame1, size1) =
      build-IsFrame tx index fprd ref_station dc_recv_time_reg (replicate 16 0) (omega arith)
        (omega arith) (omega arith) in
    let (tx2, n2, e2, frame2, size2) =
      append-IsFrame tx1 n1 (request index fprd ref_station dc_recv_time_reg (replicate 16 0)) []
        (u8 (index + 1)) fprd station dc_recv_time_reg (replicate 16 0) frame1 (omega arith, tt)
        (omega arith) (omega arith) (omega arith) in
    (tx2, n2, u8 (u8 (index + 1) + 1), rw (e1, e2) refl, omega arith, omega (arith, frame2.padded))

read_times_of-Writes : (ref_station station : ℕ) → Writes 96 (read_times_of ref_station station)
unfolding read_times_of
read_times_of-Writes ref_station station tx index size =
    let first = request index fprd ref_station dc_sys_time_reg (replicate 8 0) in
    let second = request (u8 (index + 1)) fprd station dc_sys_time_reg (replicate 8 0) in
    let (tx1, n1, e1, frame1, size1) =
      build-IsFrame tx index fprd ref_station dc_sys_time_reg (replicate 8 0) (omega arith)
        (omega arith) (omega arith) in
    let (tx2, n2, e2, frame2, size2) =
      append-IsFrame tx1 n1 first [] (u8 (index + 1)) fprd station dc_sys_time_reg (replicate 8 0)
        frame1 (omega arith, tt) (omega arith) (omega arith) (omega arith) in
    let (tx3, n3, e3, frame3, size3) =
      append-IsFrame tx2 n2 first (second ∷ []) (u8 (u8 (index + 1) + 1)) fprd station
        dc_sys_time_offset_reg (replicate 8 0) frame2 (omega arith, (omega arith, tt)) (omega arith)
        (omega arith) (omega arith) in
    (
      tx3,
      n3,
      u8 (u8 (u8 (index + 1) + 1) + 1),
      rw (e1, e2, e3) refl,
      omega arith,
      omega (arith, frame3.padded),
    )

-- The transmit buffer has its 96 bytes.
abbrev pub IsValid : FsmDc → Type 0
IsValid f = length f.link.tx ≡ 96

abbrev pub rank : State → ℕ
rank comp_latch = 10
rank comp_read_ports = 9
rank comp_write_delay = 8
rank comp_read_times = 7
rank comp_write_offset = 6
rank latch_time = 5
rank read_time = 4
rank write_cycle = 3
rank write_start = 2
rank activate = 1
rank done = 0

abbrev pub measure : FsmDc → ℕ
measure f = rank f.state * 2003 + exchange_left f.link

parse_two_port_reads-ne-panic : (frame : List ℕ) → parse_two_port_reads frame ≢ panic
unfolding parse_two_port_reads read_ports
parse_two_port_reads-ne-panic frame e = ground arith

parse_three_u64_reads-ne-panic : (frame : List ℕ) → parse_three_u64_reads frame ≢ panic
unfolding parse_three_u64_reads read_u64
parse_three_u64_reads-ne-panic frame e = ground arith

-- What a handler of the machine must do: with a machine of a lower rank and of the same buffer, or
-- an end.
abbrev Handles : {R : Type 0} → FsmDc → (FsmDc → R → FsmDc × Outcome Bool) → Type 0
Handles {R} f handle =
    (x : Exchange) (reply : R)
    → length x.tx ≡ 96
    → Good IsValid measure (measure f) (handle (put f x) reply).0 (handle (put f x) reply).1

latched-Handles : (f : FsmDc) → f.state ≡ comp_latch → Handles f latched
unfolding latched
latched-Handles f at x reply size = ground arith

written-Handles : (f : FsmDc) (next : State) → rank next < rank f.state → Handles f (written next)
unfolding written
written-Handles f next lower x reply size = ground arith

time_read-Handles : (f : FsmDc) → f.state ≡ read_time → Handles f time_read
unfolding time_read
time_read-Handles f at x reply size = ground arith

activated-Handles : (f : FsmDc) → Handles f activated
unfolding activated
activated-Handles f x reply size = ground arith

take_ports-Good :
    (f : FsmDc) (r : Outcome (List ℕ × List ℕ)) (before : ℕ)
    → r ≢ panic
    → length f.link.tx ≡ 96
    → 8 * 2003 + 2002 < before
    → Good IsValid measure before (take_ports f r).0 (take_ports f r).1
take_ports-Good f (ok (a, b)) before h size less = ground arith
take_ports-Good f (err e) before h size less = ground arith
take_ports-Good f panic before h size less = absurd (h refl)

take_times-Good :
    (f : FsmDc) (r : Outcome (ℕ × ℕ × ℕ)) (before : ℕ)
    → r ≢ panic
    → length f.link.tx ≡ 96
    → 6 * 2003 + 2002 < before
    → Good IsValid measure before (take_times f r).0 (take_times f r).1
take_times-Good f (ok (a, b, c)) before h size less = ground arith
take_times-Good f (err e) before h size less = ground arith
take_times-Good f panic before h size less = absurd (h refl)

ports_read-Handles : (f : FsmDc) → f.state ≡ comp_read_ports → Handles f ports_read
unfolding ports_read
ports_read-Handles f at x len size =
    take_ports-Good (put f x) (parse_two_port_reads (take len x.rx)) (measure f)
      (parse_two_port_reads-ne-panic (take len x.rx)) size (ground arith)

times_read-Handles : (f : FsmDc) → f.state ≡ comp_read_times → Handles f times_read
unfolding times_read
times_read-Handles f at x len size =
    take_times-Good (put f x) (parse_three_u64_reads (take len x.rx)) (measure f)
      (parse_three_u64_reads-ne-panic (take len x.rx)) size (ground arith)

pub new-IsValid :
    (station : ℕ) (cfg : DcCfg) (dc_ref : DcRef)
    → IsValid (new station cfg dc_ref) × (measure (new station cfg dc_ref) ≤ 22032)
unfolding new
new-IsValid station cfg dc_ref = ground arith

module _ {S : Type 0} (nic : Enet S) where
  talk-Good :
      (f : FsmDc) (bus : Bus S) (write : Writer) (handle : FsmDc → Reply → FsmDc × Outcome Bool)
      → IsValid f
      → Writes 96 write
      → Handles f handle
      → let r = talk nic f bus write handle in Good IsValid measure (measure f) r.0 r.2
  talk-Good f bus write handle v writes handled =
      answer-elim (Good IsValid measure (measure f)) (ask nic write f.link bus) (put f) false handle
        (ask-Fair nic 96 write writes f.link bus v)
        (λ x size less. (λ e. cc, λ e. (size, omega (arith, less))))
        (λ x reply size heard. handled x reply size) (λ x e size. (λ p. cc, λ p. cc))

  talk_frame-Good :
      (f : FsmDc) (bus : Bus S) (write : Writer) (handle : FsmDc → ℕ → FsmDc × Outcome Bool)
      → IsValid f
      → Writes 96 write
      → Handles f handle
      → let r = talk_frame nic f bus write handle in Good IsValid measure (measure f) r.0 r.2
  talk_frame-Good f bus write handle v writes handled =
      answer-elim (Good IsValid measure (measure f)) (exchange nic write f.link bus) (put f) false
        handle (exchange-Fair nic 96 write writes f.link bus v)
        (λ x size less. (λ e. cc, λ e. (size, omega (arith, less))))
        (λ x len size heard. handled x len size) (λ x e size. (λ p. cc, λ p. cc))

  -- A request with a short payload fills the buffer.
  short :
      (cmd : Command) (adp ado : ℕ) (payload : List ℕ)
      → length payload ≤ 8
      → Writes 96 (single cmd adp ado payload)
  short cmd adp ado payload few =
      single-Writes 96 cmd adp ado payload (omega arith) (omega arith) (omega arith)

  step_in-Good :
      (s : State) (f : FsmDc) (bus : Bus S)
      → f.state ≡ s
      → IsValid f
      → let r = step_in nic s f bus in Good IsValid measure (measure f) r.0 r.2
  unfolding step_in
  step_in-Good comp_latch f bus at v =
      talk-Good f bus _ latched v (short bwr 0 dc_recv_time_reg (replicate 4 0) (omega arith))
        (latched-Handles f at)
  step_in-Good comp_read_ports f bus at v =
      talk_frame-Good f bus _ ports_read v (read_ports_of-Writes f.dc_ref.ref_station f.station)
        (ports_read-Handles f at)
  step_in-Good comp_write_delay f bus at v =
      talk-Good f bus _ (written comp_read_times) v
        (short fpwr f.station dc_sys_time_delay_reg (le32 f.delay) (omega arith))
        (written-Handles f comp_read_times (ground arith))
  step_in-Good comp_read_times f bus at v =
      talk_frame-Good f bus _ times_read v (read_times_of-Writes f.dc_ref.ref_station f.station)
        (times_read-Handles f at)
  step_in-Good comp_write_offset f bus at v =
      talk-Good f bus _ (written write_cycle) v
        (short fpwr f.station dc_sys_time_offset_reg (le64 f.offset) (omega arith))
        (written-Handles f write_cycle (ground arith))
  step_in-Good latch_time f bus at v =
      talk-Good f bus _ (written read_time) v
        (short fpwr f.station dc_recv_time_reg (replicate 4 0) (omega arith))
        (written-Handles f read_time (ground arith))
  step_in-Good read_time f bus at v =
      talk-Good f bus _ time_read v
        (short fprd f.station dc_sys_time_reg (replicate 8 0) (omega arith))
        (time_read-Handles f at)
  step_in-Good write_cycle f bus at v =
      talk-Good f bus _ (written write_start) v
        (short fpwr f.station dc_sync0_cycle_reg
          (le32 f.cfg.sync0_cycle_ns ++ le32 f.cfg.sync1_cycle_ns) (omega arith))
        (written-Handles f write_start (ground arith))
  step_in-Good write_start f bus at v =
      talk-Good f bus _ (written activate) v
        (short fpwr f.station dc_cycle_start_reg (le64 f.start_time) (omega arith))
        (written-Handles f activate (ground arith))
  step_in-Good activate f bus at v =
      talk-Good f bus _ activated v
        (short fpwr f.station dc_activation_reg (le16 f.cfg.assign_activate) (omega arith))
        (activated-Handles f)
  step_in-Good done f bus at v = (λ e. cc, λ e. cc)

  pub step-Good :
      (f : FsmDc) (bus : Bus S)
      → IsValid f
      → Good IsValid measure (measure f) (step nic f bus).0 (step nic f bus).2
  unfolding step
  step-Good f bus v = step_in-Good f.state f bus refl v

  -- The set-up of a distributed clock ends, whatever the NIC delivers: stepped at most 22033 times,
  -- it is complete or has reported an error, without a panic.
  pub dc-Final :
      (station : ℕ) (cfg : DcCfg) (dc_ref : DcRef) (bus : Bus S)
      → Final (run (step nic) 22033 (new station cfg dc_ref) bus).2
  dc-Final station cfg dc_ref bus =
      let (valid, size) = new-IsValid station cfg dc_ref in
      run-Final (step nic) IsValid measure step-Good 22033 (new station cfg dc_ref) bus valid
        (omega (arith, size))

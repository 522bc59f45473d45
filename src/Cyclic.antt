-- ===== src/Cyclic.antt =====
-- src/ethercat/cyclic.rs: the cyclic engine. This file has its state and the receiving half of a
-- tick; `Send` has the sending half and the tick.
pub mod Send
pub mod Replies
pub mod Phases
pub mod Host
pub mod Marks
pub mod Safe
use rtic_ecmaster.Base.{
  ℕ, zero, suc, ◌+◌, ◌-◌, ◌*◌, ◌/◌, ◌%◌, ◌^◌, ◌<◌, Bool, true, false, ◌&&◌, ◌||◌, not, Option, none,
  some, List, [], ◌∷◌, ◌++◌, ltb, leb, ◌==◌, if◌then◌else◌, length, get_elem?, set, take, replicate,
  byte_at, read_le32, test_bit, low_bits, u32, all, get_or,
}
use rtic_ecmaster.Base.Int.{ℤ, pos, negsuc, abs, neg_ℕ}
use rtic_ecmaster.Datagram.{Reply, parse_at, frame_header_size}
use rtic_ecmaster.Domain.{EcDomain, apply_reply, from_config}
use rtic_ecmaster.Config.{BusCfg}
use rtic_ecmaster.Cia402
use rtic_ecmaster.Device.{Enet, Device, poll, ecat_rx_len}

-- `CYCLIC_BUF`, `MAX_APPENDED`, `PRIMING_CYCLES`, `HOST_WDOG_LIMIT_CYCLES`, `EC_MAX_SLAVES`.
abbrev pub cyclic_buf : ℕ
cyclic_buf = 576

abbrev pub max_appended : ℕ
max_appended = 3

abbrev pub priming_cycles : ℕ
priming_cycles = 3

abbrev pub host_wdog_limit_cycles : ℕ
host_wdog_limit_cycles = 20

abbrev pub max_slaves : ℕ
max_slaves = 32

-- `al_state` of src/ethercat/globals.rs.
abbrev pub al_op : ℕ
al_op = 0x08

-- `status & al_state::ERROR != 0`, bit 4, and `status & al_state::MASK`.
abbrev pub al_error : ℕ → Bool
al_error status = test_bit status 4

abbrev pub al_nibble : ℕ → ℕ
al_nibble status = low_bits status 4

pub data Phase : Type 0 where
  priming requesting_op operational faulted : Phase

abbrev pub phase_eq : Phase → Phase → Bool
phase_eq priming priming = true
phase_eq requesting_op requesting_op = true
phase_eq operational operational = true
phase_eq faulted faulted = true
phase_eq _ _ = false

pub data Appended : Type 0 where
  control dc_armw dc_diff al_poll : Appended
  status : ℕ → Appended

pub data AppliedReply : Type 0 where
  nothing fault : AppliedReply
  op_reached : ℕ → AppliedReply
  drift : ℤ → AppliedReply

-- `CyclicSlave` and `SlaveRt`.
pub record CyclicSlave : Type 0 where
  pub station : ℕ
  pub ring_pos : ℕ

pub record SlaveRt : Type 0 where
  pub station : ℕ
  pub ring_pos : ℕ
  pub reached_op : Bool

pub record Cyclic : Type 0 where
  pub domain : EcDomain
  pub slaves : List SlaveRt
  pub ref_ring_pos : ℕ
  pub phase : Phase
  pub tx : List ℕ
  pub tx_len : ℕ
  pub rx : List ℕ
  pub outstanding : Bool
  pub expected_index : ℕ
  pub good_cycles : ℕ
  pub total_cycles : ℕ
  pub appended : List Appended
  pub op_cursor : ℕ
  pub op_ctrl_phase : Bool
  pub mon_toggle : Bool
  pub mon_cursor : ℕ
  pub cycle_ns : ℕ
  pub lat_min_ticks : ℕ
  pub lat_max_ticks : ℕ
  pub dc_diff_ns : ℤ
  pub dc_diff_max_ns : ℤ
  pub dc_valid : Bool
  pub cia402 : List Cia402.Binding

abbrev pub start_slave : CyclicSlave → SlaveRt
start_slave s = record { station = s.station; ring_pos = s.ring_pos; reached_op = false }

-- The slave list of `Cyclic::new`; a full list drops the rest.
unfoldable pub start_slaves : ℕ → List CyclicSlave → List SlaveRt
start_slaves zero ss = []
start_slaves (suc room) [] = []
start_slaves (suc room) (s ∷ ss) = start_slave s ∷ start_slaves room ss

-- `Cyclic::new`, over the bus tables.
unfoldable pub new : BusCfg → List CyclicSlave → ℕ → ℕ → Cyclic
new bus slaves ref_ring_pos cycle_ns = record {
  domain = from_config bus;
  slaves = start_slaves max_slaves slaves;
  ref_ring_pos = ref_ring_pos;
  phase = priming;
  tx = replicate cyclic_buf 0;
  tx_len = 0;
  rx = replicate cyclic_buf 0;
  outstanding = false;
  expected_index = 0;
  good_cycles = 0;
  total_cycles = 0;
  appended = [];
  op_cursor = 0;
  op_ctrl_phase = true;
  mon_toggle = true;
  mon_cursor = 0;
  cycle_ns = cycle_ns;
  lat_min_ticks = 2 ^ 32 - 1;
  lat_max_ticks = 0;
  dc_diff_ns = pos 0;
  dc_diff_max_ns = pos 0;
  dc_valid = false;
  cia402 = Cia402.new bus.pins;
}

-- `decode_dc_diff`: 31 bits of magnitude and a sign bit.
unfoldable pub decode_dc_diff : ℕ → ℤ
decode_dc_diff raw = let mag = low_bits raw 31 in if test_bit raw 31 then neg_ℕ mag else pos mag

decode_status : ℕ → ℕ → AppliedReply
decode_status idx s =
    if al_error s then fault else if al_nibble s == al_op then op_reached idx else nothing

decode_poll : ℕ → AppliedReply
decode_poll s = if al_error s || not (al_nibble s == al_op) then fault else nothing

-- `decode_appended`; `dg.data.first().copied().unwrap_or(0)` is the byte 0 or 0.
unfoldable pub decode_appended : Appended → Reply → AppliedReply
unfolding decode_status decode_poll
decode_appended control dg = nothing
decode_appended dc_armw dg = nothing
decode_appended (status idx) dg =
    if dg.working_counter == 0 then nothing else decode_status idx (byte_at dg.payload 0)
decode_appended al_poll dg =
    if dg.working_counter == 0 then nothing else decode_poll (byte_at dg.payload 0)
decode_appended dc_diff dg =
    if ltb 0 dg.working_counter && leb 4 (length dg.payload)
    then drift (decode_dc_diff (read_le32 dg.payload 0))
    else nothing

-- The walk of `process` over the appended datagrams, in the order in which they were built.
unfoldable pub walk : List Appended → List ℕ → ℕ → List AppliedReply
walk [] frame next = []
walk (kind ∷ kinds) frame next =
    let rest : List AppliedReply = elim (parse_at frame next) [
      | none ↦ []
      | some (dg, n2) ↦ decode_appended kind dg ∷ walk kinds frame n2
    ] in
    if next == 0 then [] else rest

-- `if let Some(s) = self.slaves.get_mut(idx) { s.reached_op = true; }`
unfoldable pub mark_reached : List SlaveRt → ℕ → List SlaveRt
mark_reached [] idx = []
mark_reached (s ∷ ss) zero = record s { reached_op = true } ∷ ss
mark_reached (s ∷ ss) (suc idx) = s ∷ mark_reached ss idx

-- One round of the loop that applies the decoded replies.
unfoldable pub apply_one : Cyclic → AppliedReply → Cyclic
apply_one c nothing = c
apply_one c fault = record c { phase = faulted }
apply_one c (op_reached idx) = record c { slaves = mark_reached c.slaves idx }
apply_one c (drift v) = record c {
  dc_diff_ns = v;
  dc_valid = true;
  dc_diff_max_ns = if ltb (abs c.dc_diff_max_ns) (abs v) then v else c.dc_diff_max_ns;
}

unfoldable pub apply_actions : Cyclic → List AppliedReply → Cyclic
apply_actions c [] = c
apply_actions c (a ∷ actions) = apply_actions (apply_one c a) actions

-- `all_reached_op`
unfoldable pub all_reached_op : List SlaveRt → Bool
all_reached_op [] = true
all_reached_op (s ∷ ss) = s.reached_op && all_reached_op ss

-- `good_cycles` behind a reply: saturating, and back to 0 on a zero counter.
abbrev pub next_good : ℕ → ℕ → ℕ
next_good good wkc = if ltb 0 wkc then (if good == 2 ^ 32 - 1 then good else good + 1) else 0

-- The Priming -> RequestingOp gate.
unfoldable pub gate_priming : Cyclic → ℕ → Cyclic
gate_priming c wkc =
    let good = next_good c.good_cycles wkc in
    record c {
      good_cycles = good;
      phase =
          if phase_eq c.phase priming && leb priming_cycles good then requesting_op else c.phase;
    }

-- The RequestingOp -> Operational gate.
unfoldable pub gate_operational : Cyclic → Cyclic
gate_operational c =
    if phase_eq c.phase requesting_op && all_reached_op c.slaves
    then record c { phase = operational }
    else c

-- `process` of the reply frame `&rx[..len]`.
unfoldable pub process : Cyclic → ℕ → Cyclic
process c len =
    let frame = take len c.rx in
    elim (parse_at frame frame_header_size) [
      | none ↦ c
      | some (lrw, next) ↦
          let c' : Cyclic = record c { domain = (apply_reply c.domain lrw).0 } in
          let actions = walk c.appended frame next in
          gate_operational (apply_actions (gate_priming c' lrw.working_counter) actions)
    ]

module _ {S : Type 0} (nic : Enet S) where
  -- `receive`: at most `polls` frames are drained; a stray one is passed over.
  unfoldable pub receive : ℕ → Cyclic → Device S → Cyclic × Device S
  receive zero c dev = (c, dev)
  receive (suc polls) c dev =
      let (dev', rx, got) = poll nic dev c.rx in
      let c' : Cyclic = record c { rx = rx } in
      let again = receive polls c' dev' in
      elim got [
        | none ↦ (c', dev')
        | some len ↦
            if leb 4 len && byte_at rx 3 == c.expected_index then (process c' len, dev') else again
      ]

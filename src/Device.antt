-- ===== src/Device.antt =====
-- src/ethercat/device.rs: the master's link to the NIC, and the non-blocking transaction tracker.
-- The ENET driver moves frames through DMA memory; here it is an interface over its own state.
pub mod Pumping
use rtic_ecmaster.Base.{
  ℕ, zero, suc, ◌+◌, Bool, true, false, ◌&&◌, ◌||◌, not, Option, none, some, List, [], ◌∷◌, ◌++◌,
  min, ltb, leb, ◌==◌, if◌then◌else◌, length, take, drop, get_or, overwrite, byte_at, Outcome, ok,
  err, panic, EcError, timeout, transport,
}

-- `EnetDevice::send_frame` with a header and a payload, which says whether a TX buffer was free,
-- and `poll_raw`, which gives the oldest received frame, if any.
pub record Enet (S : Type 0) : Type 0 where
  pub send_frame : S → List ℕ → List ℕ → S × Bool
  pub poll_raw : S → S × Option (List ℕ)

-- `Device`
pub record Device (S : Type 0) : Type 0 where
  pub enet : S
  pub src_mac : List ℕ

abbrev pub ecat_mtu : ℕ
ecat_mtu = 1536

abbrev pub ecat_rx_len : ℕ
ecat_rx_len = 4

abbrev pub eth_header_len : ℕ
eth_header_len = 14

-- The Ethernet header: broadcast, the source MAC, EtherType 0x88A4 big-endian.
abbrev pub eth_header : List ℕ → List ℕ
eth_header src_mac = 0xFF ∷ 0xFF ∷ 0xFF ∷ 0xFF ∷ 0xFF ∷ 0xFF ∷ (src_mac ++ (0x88 ∷ 0xA4 ∷ []))

-- `Pump`
pub record Pump : Type 0 where
  pub sent : Bool
  pub expected : ℕ
  pub attempts : ℕ

abbrev pub pump_new : Pump
pump_new = record { sent = false; expected = 0; attempts = 0 }

-- `Pump::reset`
abbrev pub pump_reset : Pump → Pump
pump_reset p = record p { sent = false; attempts = 0 }

-- The closure of `poll`: how many payload bytes of a raw frame are taken, 0 for a frame that is
-- too short or not EtherCAT.
unfoldable pub taken : List ℕ → ℕ → ℕ
taken frame room =
    if ltb (length frame) eth_header_len
    then 0
    else if not (byte_at frame 12 == 0x88) || not (byte_at frame 13 == 0xA4)
    then 0
    else min (length (drop eth_header_len frame)) room

module _ {S : Type 0} (nic : Enet S) where
  -- `Device::send`
  unfoldable pub send : Device S → List ℕ → Device S × Outcome (Unit {0})
  send dev frame =
      let (s, accepted) = nic.send_frame dev.enet (eth_header dev.src_mac) frame in
      if ltb ecat_mtu (eth_header_len + length frame)
      then (dev, err transport)
      else (record dev { enet = s }, if accepted then ok tt else err transport)

  -- `Device::poll` into the buffer `out`: the buffer and the copied length.
  unfoldable pub poll : Device S → List ℕ → Device S × List ℕ × Option ℕ
  poll dev out =
      let (s, raw) = nic.poll_raw dev.enet in
      let dev' : Device S = record dev { enet = s } in
      elim raw [
        | none ↦ (dev', out, none)
        | some frame ↦
            let n = taken frame (length out) in
            let out' = overwrite out 0 (take n (drop eth_header_len frame)) in
            if ltb 0 n then (dev', out', some n) else (dev', out, none)
      ]

  -- `Device::pump`: the pump, the buffer, and the reply's length once it is there.
  unfoldable pub pump :
      Device S → Pump → List ℕ → List ℕ → ℕ → Device S × Pump × List ℕ × Outcome (Option ℕ)
  pump dev p frame rx max_attempts =
      let (sent_dev, sent) = send dev frame in
      let started = record p { sent = true; expected = get_or frame 3 0; attempts = 0 } in
      let (polled_dev, rx', got) = poll dev rx in
      let waited = record p { attempts = p.attempts + 1 } in
      let wait : Device S × Pump × List ℕ × Outcome (Option ℕ) =
        if leb max_attempts (p.attempts + 1)
        then (polled_dev, record waited { sent = false }, rx', err timeout)
        else (polled_dev, waited, rx', ok none) in
      let start : Device S × Pump × List ℕ × Outcome (Option ℕ) = elim sent [
        | ok _ ↦ (sent_dev, started, rx, ok none)
        | err e ↦ (sent_dev, p, rx, err e)
        | panic ↦ (sent_dev, p, rx, panic)
      ] in
      let take_reply : ℕ → Device S × Pump × List ℕ × Outcome (Option ℕ) = λ n.
        (if leb 4 n && byte_at rx' 3 == p.expected
          then (polled_dev, record p { sent = false }, rx', ok (some n))
          else wait) in
      if not p.sent then start else elim got [ none ↦ wait | some n ↦ take_reply n ]

  -- The poll loop of `transact`, over the polls left; the delay between polls is no effect.
  unfoldable pub await_reply : ℕ → Device S → List ℕ → ℕ → Device S × List ℕ × Outcome ℕ
  await_reply zero dev out expected = (dev, out, err timeout)
  await_reply (suc polls) dev out expected =
      let (dev', out', got) = poll dev out in
      let again = await_reply polls dev' out' expected in
      elim got [
        | none ↦ again
        | some n ↦ if leb 4 n && byte_at out' 3 == expected then (dev', out', ok n) else again
      ]

  -- `Device::transact` with `attempts` for TRANSACT_POLL_ATTEMPTS.
  unfoldable pub transact : ℕ → Device S → List ℕ → List ℕ → Device S × List ℕ × Outcome ℕ
  transact attempts dev ecat_frame out =
      let (dev', sent) = send dev ecat_frame in
      elim sent [
        | ok _ ↦ await_reply attempts dev' out (get_or ecat_frame 3 0)
        | err e ↦ (dev', out, err e)
        | panic ↦ (dev', out, panic)
      ]

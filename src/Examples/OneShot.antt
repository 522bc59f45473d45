-- ===== src/Examples/OneShot.antt =====
-- The blocking scan of a bus whose one slave answers everything with zeros.
use rtic_ecmaster.Base.{
  ℕ, ◌+◌, ◌-◌, ◌≡◌, refl, true, some, List, [], ◌∷◌, ◌++◌, length, replicate, Outcome, ok, u8,
}
use rtic_ecmaster.Base.Lists.{copy_at}
use rtic_ecmaster.Datagram.{build, pad_frame, parse, autoinc_adp}
use rtic_ecmaster.Device.{Enet, Device, send, taken, poll, await_reply, transact}
use rtic_ecmaster.Slave.{SlaveInfo}
use rtic_ecmaster.BlockingScan.{
  next, transfer, call, sii_poll, sii_read_u32, scan_slave, count_slaves, clear_addresses,
  scan_from, scan_bus,
}

-- The reply to the datagram that was sent last: twelve zeros and one slave that processed it.
abbrev reply_to : ℕ → List ℕ
reply_to index =
    replicate 12 0xFF
    ++ (0x88 ∷ 0xA4 ∷ 0x18 ∷ 0x10 ∷ 0x04 ∷ index ∷ 0 ∷ 0 ∷ 0 ∷ 0 ∷ 12 ∷ 0 ∷ 0 ∷ 0 ∷ [])
    ++ (replicate 12 0 ++ (1 ∷ 0 ∷ []))

-- The NIC counts the frames.
abbrev one : Enet ℕ
one = record {
  send_frame = λ s h p. (s + 1, true);
  poll_raw = λ s. (s, some (reply_to (u8 (s - 1))));
}

abbrev nic_link : Device ℕ
nic_link = record { enet = 0; src_mac = 2 ∷ 0 ∷ 0 ∷ 0 ∷ 0 ∷ 1 ∷ [] }

abbrev ring_size : Outcome (List SlaveInfo) → ℕ
ring_size (Outcome.ok ss) = length ss
ring_size o = 99

found_one : ring_size (scan_bus one 3 nic_link).1 ≡ 1
unfolding scan_bus count_slaves clear_addresses scan_from scan_slave sii_read_u32 sii_poll call
    transfer next build pad_frame parse copy_at transact send poll await_reply taken autoinc_adp
found_one = refl

-- ===== src/BlockingScan/Found.antt =====
-- The slaves that the blocking scan finds.
use rtic_ecmaster.Base.{ℕ, ◌+◌, ◌≤◌, ◌≡◌, ◌≢◌, List, length, Outcome, ok, panic}
use rtic_ecmaster.Device.{Enet, Device}
use rtic_ecmaster.Scan.{max_slaves}
use rtic_ecmaster.Scan.Published.{NumberedFrom}
use rtic_ecmaster.Slave.{SlaveInfo}

-- The slave at a ring position.
abbrev At : ℕ → SlaveInfo → Type 0
At n s = (s.ring_pos ≡ n) × (s.station_addr ≡ n + 1)

module _ {S : Type 0} (nic : Enet S) (attempts : ℕ) where
  -- The slaves so far, at the positions below `n`, and those that the loop adds.
  abbrev Numbered : ℕ → List SlaveInfo → Type 0
  Numbered n ss = NumberedFrom 0 ss × (length ss ≡ n) × (n ≤ max_slaves)

  -- What the scan promises, by what was counted.
  abbrev Found : Outcome ℕ → Outcome (List SlaveInfo) → Type 0
  Found count o =
      (o ≢ panic)
      × ((ss : List SlaveInfo)
          → o ≡ ok ss
          → NumberedFrom 0 ss × (length ss ≤ max_slaves) × (count ≡ ok (length ss)))

-- ===== src/W5500/Sockets/Steady.antt =====
-- The polls of the sockets never write or read past a buffer, whatever the chip answers.
use rtic_ecmaster.Base.{◌≢◌}
use rtic_ecmaster.W5500.{panicked, Io}

abbrev pub Steady : {S A : Type 0} → Io S A → Type 0
Steady {S} m = (s : S) → (m s).1 ≢ panicked

-- ===== src/SlaveConfig/Reached.antt =====
-- What a bring-up that reports success has done last: the change to SAFE-OP.
use rtic_ecmaster.Change
use rtic_ecmaster.Sync
use rtic_ecmaster.SlaveConfig.Underway.{Underway}

-- ===== src/Console.antt =====
-- src/main.rs: the console. usb_isr gathers the typed bytes into a line and queues its command, and
-- ethercat_worker turns the command into a request to the master. The texts of the answers, and the
-- time between two calls, are left out.
pub mod Output
pub mod Typed
pub mod Drives
pub mod Answers
use rtic_ecmaster.Base.{
  ℕ, zero, suc, ◌+◌, ◌/◌, Bool, true, false, not, ◌&&◌, ◌||◌, Option, none, some, List, [], ◌∷◌,
  ◌++◌, ltb, leb, ◌==◌, if◌then◌else◌, length, Outcome, ok, err, panic,
}
use rtic_ecmaster.Base.Checked.{◌>>=◌}
use rtic_ecmaster.Cli.{
  Command, nothing, help, slaves, status, rescan, stop, stats, pdos, host, crashlog, crashclear,
  states, upload, download, start, monitor, pd, error, MonitorMode, on, off, toggle,
}
use rtic_ecmaster.Cli.Text.{is_empty}
use rtic_ecmaster.Cli.Parse.{parse}
use rtic_ecmaster.Config.{BusCfg}
use rtic_ecmaster.Device.{Enet}
use rtic_ecmaster.Master.{
  Request, stop_cyclic, set_state, sdo_upload, sdo_download, start_cyclic, Completion, Master,
  begin,
}
use rtic_ecmaster.Master as Requests
use rtic_ecmaster.Master.Completes.{polls}

-- `ecat_line`, with the capacity of its string, and `ecat_cmd`.
pub record Console : Type 0 where
  pub line : List ℕ
  pub slot : Option Command

abbrev pub line_cap : ℕ
line_cap = 128

-- `pop` of the line.
unfoldable pub drop_last : List ℕ → List ℕ
drop_last [] = []
drop_last (c ∷ []) = []
drop_last (c ∷ d ∷ cs) = c ∷ drop_last (d ∷ cs)

-- A full slot keeps its command.
abbrev pub queue : Option Command → Command → Option Command
queue none cmd = some cmd
queue (some old) cmd = some old

abbrev pub end_line : Console → Option Command → Option Console
end_line c (some cmd) = some (record { line = []; slot = queue c.slot cmd })
end_line c none = none

-- The match on a typed byte; `none` is a panic of the parser.
unfoldable pub take_byte : Console → ℕ → Option Console
take_byte c b =
    if b == 13 || b == 10
    then (if is_empty c.line then some c else end_line c (parse c.line))
    else if b == 0x08 || b == 0x7F
    then some (record c { line = drop_last c.line })
    else if leb 0x20 b && leb b 0x7E && ltb (length c.line) line_cap
    then some (record c { line = c.line ++ b ∷ [] })
    else some c

-- The bytes of a packet.
unfoldable pub take_bytes : Console → List ℕ → Option Console
take_bytes c [] = some c
take_bytes c (b ∷ bs) = take_byte c b >>= λ c'. take_bytes c' bs

-- What the worker makes of a command: a request to the master, a refusal while the cycles run, or
-- an answer without a request. `configured_ns` is the cycle time of the generated bus tables; a rate
-- of 0 would panic, here `none`.
pub data Action : Type 0 where
  drive : Request → Action
  refused answered : Action

abbrev pub unless : Bool → Request → Action
unless busy req = if busy then refused else drive req

abbrev pub period : ℕ → Option ℕ → Option ℕ
period configured_ns none = some configured_ns
period configured_ns (some zero) = none
period configured_ns (some (suc hz)) = some (1000000000 / suc hz)

abbrev pub start_action : Bool → Option ℕ → Option Action
start_action busy (some cycle_ns) = some (unless busy (start_cyclic cycle_ns))
start_action busy none = if busy then some refused else none

-- `ecat_run_command`, with `run_rescan_traced` for a rescan.
unfoldable pub action_of : ℕ → Bool → Command → Option Action
action_of configured_ns busy rescan = some (unless busy Requests.rescan)
action_of configured_ns busy (states slave target) = some (unless busy (set_state slave target))
action_of configured_ns busy (upload slave index subindex ty) =
    some (unless busy (sdo_upload slave index subindex))
action_of configured_ns busy (download slave index subindex ty bytes len) =
    some (unless busy (sdo_download slave index subindex bytes len))
action_of configured_ns busy (start slave rate_hz) =
    start_action busy (period configured_ns rate_hz)
action_of configured_ns busy stop = some (drive stop_cyclic)
action_of configured_ns busy cmd = some answered

-- The `monitor` command of the worker.
unfoldable pub monitor_after : MonitorMode → Bool → Bool
monitor_after on running = true
monitor_after off running = false
monitor_after toggle running = not running

-- `cyclic_active`
abbrev pub cyclic_active : {S : Type 0} → Master S → Bool
cyclic_active m = elim m.cyclic [ some c ↦ true | none ↦ false ]

module _ {S : Type 0} (nic : Enet S) (cfg : BusCfg) where
  -- `ecat_drive`: the request, and calls of `poll_op` until the operation ends, at most `rounds`.
  abbrev pub proceed : ℕ → Master S × Outcome (Unit {0}) → Master S × Option (Outcome Completion)
  proceed rounds (m, ok _) = polls nic cfg rounds m
  proceed rounds (m, err e) = (m, some (err e))
  proceed rounds (m, panic) = (m, some panic)

  unfoldable pub ecat_drive : ℕ → Master S → Request → Master S × Option (Outcome Completion)
  ecat_drive rounds m req = proceed rounds (begin m req)

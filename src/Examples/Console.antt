-- ===== src/Examples/Console.antt =====
-- Lines of the console, the answers to them, and the rate of the timer.
use rtic_ecmaster.Base.{
  ℕ, ◌+◌, ◌*◌, ◌≤◌, ◌<◌, ◌≡◌, refl, arith, false, none, some, List, [], ◌∷◌, ◌++◌,
}
use rtic_ecmaster.Cli.Text.{codes, split_whitespace}
use rtic_ecmaster.Cli.{Command, SdoType, sdo_type, start, states, stop}
use rtic_ecmaster.Cli.Parse.{parse, encode_value}
use rtic_ecmaster.Cli.WellFormed.{IsWellFormed}
use rtic_ecmaster.Cli.Accepts.{parse-IsWellFormed}
use rtic_ecmaster.Cli.Format.{format_value}
use rtic_ecmaster.Cli.TypedBack.{in_buffer, encode_value-format_value}
use rtic_ecmaster.Console.{Console, drop_last, take_byte, take_bytes}
use rtic_ecmaster.Console.Typed.{Goes, take_bytes-Goes}
use rtic_ecmaster.Console.Output.{new, accepted, would_block, set_lines, pending, send_packets}
use rtic_ecmaster.Console.Answers.{text, send_packets-set_lines}
use rtic_ecmaster.CycleTimer.{perclk_hz, load_value, actual_hz}
use rtic_ecmaster.CycleTimer.Rates.{actual_hz-load_value}

start_line : parse (codes "start -p3 --rate 0x3e8") ≡ some (start 3 (some 1000))
unfolding parse
start_line = refl

-- A position is cut to 16 bits.
states_line : parse (codes " state  -p 70000 PreOp ") ≡ some (states 4464 2)
unfolding parse
states_line = refl

-- A rate is cut to 32 bits before its range is tested.
wide_rate : parse (codes "start -r4294967396") ≡ some (start 0 (some 100))
unfolding parse
wide_rate = refl

parse-IsWellFormed_example :
    (c : Command) × (parse (codes "download -p0 -tint16 0x6040 0 -3") ≡ some c) × IsWellFormed c
parse-IsWellFormed_example = parse-IsWellFormed (codes "download -p0 -tint16 0x6040 0 -3")

abbrev int16 : SdoType
int16 = sdo_type "int16" 0x0003 2

abbrev word : List ℕ
word = 0xFD ∷ 0xFF ∷ []

minus_three : format_value (some int16) word ≡ codes "0xfffd -3"
unfolding format_value
minus_three = refl

encode_value-format_value_example :
    (hex number : List ℕ) × (split_whitespace (format_value (some int16) word) ≡ hex ∷ number ∷ [])
    × (encode_value int16 hex ≡ some (in_buffer word, 2))
    × (encode_value int16 number ≡ some (in_buffer word, 2))
encode_value-format_value_example =
    encode_value-format_value int16 word (omega arith) refl (omega arith)

abbrev fresh : Console
fresh = record { line = []; slot = none }

-- A line with a character taken back.
abbrev keys : List ℕ
keys = codes "stopp" ++ (8 ∷ 13 ∷ [])

typed_stop : take_bytes fresh keys ≡ some (record { line = []; slot = some stop })
unfolding take_bytes take_byte drop_last parse
typed_stop = refl

take_bytes-Goes_example : Goes (take_bytes fresh keys)
take_bytes-Goes_example = take_bytes-Goes fresh keys (omega arith, tt, tt)

abbrev upload_line : List ℕ
upload_line = codes "upload -p0 -tuint16 0x6041 0"

abbrev two_lines : List (List ℕ)
two_lines = codes "[ecat] 1 slave(s)" ∷ codes "[ecat] slave 0 station=1" ∷ []

send_packets-set_lines_example :
    let r = send_packets (would_block ∷ accepted ∷ []) (set_lines new two_lines) in
    (r.1 ≡ text two_lines) × (pending r.0 ≡ false)
send_packets-set_lines_example =
    send_packets-set_lines new two_lines (would_block ∷ accepted ∷ []) (omega arith) (omega arith)
      (omega arith) (omega arith)

actual_hz-load_value_example :
    (7000 * (load_value 142857 + 1) ≤ perclk_hz)
    × (perclk_hz < 7003 * (load_value 142857 + 1))
    × (7000 ≤ actual_hz (load_value 142857))
    × (actual_hz (load_value 142857) ≤ 7000 + 2)
actual_hz-load_value_example =
    actual_hz-load_value 1000000 7000 142857 (omega arith) (omega arith) refl

-- ===== src/Console/Output.antt =====
-- src/main.rs: `EcatOut`, the answer that the worker fills and usb_isr hands to the host in packets.
use rtic_ecmaster.Base.{
  ℕ, ◌+◌, Bool, true, Option, none, some, List, [], ◌∷◌, ◌++◌, ltb, leb, if◌then◌else◌, length,
  take, drop, min,
}

abbrev pub resp_lines : ℕ
resp_lines = 40

abbrev pub out_cap : ℕ
out_cap = 3920

pub record EcatOut : Type 0 where
  pub buf : List ℕ
  pub cursor : ℕ

abbrev pub new : EcatOut
new = record { buf = []; cursor = 0 }

-- `extend_from_slice`: all of the bytes, or none of them.
abbrev pub extend : List ℕ → List ℕ → List ℕ
extend buf bytes = if leb (length buf + length bytes) out_cap then buf ++ bytes else buf

abbrev pub crlf : List ℕ
crlf = 13 ∷ 10 ∷ []

unfoldable pub extend_lines : List ℕ → List (List ℕ) → List ℕ
extend_lines buf [] = buf
extend_lines buf (line ∷ lines) = extend_lines (extend (extend buf line) crlf) lines

unfoldable pub set_lines : EcatOut → List (List ℕ) → EcatOut
unfolding extend_lines
set_lines o lines = record { buf = extend_lines [] lines; cursor = 0 }

unfoldable pub load_line : EcatOut → List ℕ → EcatOut
load_line o line = record { buf = extend (extend [] line) crlf; cursor = 0 }

unfoldable pub remaining : EcatOut → List ℕ
remaining o = drop (min o.cursor (length o.buf)) o.buf

unfoldable pub pending : EcatOut → Bool
pending o = ltb o.cursor (length o.buf)

unfoldable pub advance : EcatOut → ℕ → EcatOut
advance o n = record o { cursor = min (o.cursor + n) (length o.buf) }

-- What the USB endpoint says to a packet.
pub data Write : Type 0 where
  accepted would_block failed : Write

-- USB_MAX_PACKET_SIZE
abbrev pub max_packet : ℕ
max_packet = 512

abbrev pub written : Write → EcatOut → List ℕ → EcatOut × List ℕ
written accepted o chunk = (advance o (length chunk), chunk)
written would_block o chunk = (o, [])
written failed o chunk = (advance o (length chunk), [])

-- The part of usb_isr that sends the answer, with the bytes that have gone to the host; the banner,
-- which goes out while no answer is pending, is left out.
unfoldable pub send_packet : Write → EcatOut → EcatOut × List ℕ
unfolding pending remaining advance
send_packet w o =
    if pending o
    then written w o (take (min (length (remaining o)) max_packet) (remaining o))
    else (o, [])

-- Interrupts one after the other, with all that they have sent.
unfoldable pub send_packets : List Write → EcatOut → EcatOut × List ℕ
unfolding send_packet
send_packets [] o = (o, [])
send_packets (w ∷ ws) o =
    let (o', sent) = send_packet w o in let (o'', more) = send_packets ws o' in (o'', sent ++ more)

-- `maybe_emit_monitor`: `line` is the line of a running engine, `stopped` the line that announces
-- the end of one, and `running` whether that is still to come.
abbrev pub emit : EcatOut → List ℕ → EcatOut
emit o line = if pending o then o else load_line o line

unfoldable pub maybe_emit_monitor : List ℕ → Option (List ℕ) → Bool → EcatOut → EcatOut × Bool
unfolding pending load_line
maybe_emit_monitor stopped (some line) running o = (emit o line, true)
maybe_emit_monitor stopped none running o =
    if running then (emit o stopped, pending o) else (o, running)

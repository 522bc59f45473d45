-- ===== src/Cli/Parse.antt =====
-- src/ethercat/cli.rs: the parsers of the commands. `none` is a panic, an index past the tokens.
use Prim.Native.String.{String}
use rtic_ecmaster.Base.{
  ℕ, Bool, true, false, ◌&&◌, ◌||◌, Option, none, some, List, [], ◌∷◌, leb, if◌then◌else◌, length,
}
use rtic_ecmaster.Cli.Text.{
  codes, is_empty, eq_ignore_ascii_case, trim, split_whitespace, fitted, same,
}
use rtic_ecmaster.Cli.Numbers.{parse_uint, parse_int, value_bytes}
use rtic_ecmaster.Cli.{
  SdoType, on, off, toggle, rate_min_hz, rate_max_hz, Command, nothing, help, slaves, status,
  rescan, stop, stats, pdos, host, crashlog, crashclear, states, upload, download, start, monitor,
  pd, fail, Result, ok, err, find_type, Opts, says, parse_opts,
}

-- The lines on the use of a command.
abbrev pub usage_upload : String
usage_upload = "usage: upload -p<pos> [-t<type>] <idx> <sub>"

abbrev pub usage_download : String
usage_download = "usage: download -p<pos> -t<type> <idx> <sub> <value>"

abbrev pub usage_states : String
usage_states = "usage: states -p<pos> <INIT|PREOP|SAFEOP|OP>"

abbrev pub usage_pd : String
usage_pd = "usage: pd [<pin> [<value>]]"

abbrev pub usage_monitor : String
usage_monitor = "usage: monitor [on|off]"

-- `match parse_opts(toks) { Ok(o) => ..., Err(e) => return e }`
abbrev pub with_opts : Result Opts → (Opts → Command) → Command
with_opts (ok o) f = f o
with_opts (err e) f = e

abbrev pub with_some {ℓ} : {A : Type ℓ} → Option A → Command → (A → Command) → Command
with_some (some a) otherwise f = f a
with_some none otherwise f = otherwise

-- `unwrap_or`
abbrev pub unwrap_or {ℓ} : {A : Type ℓ} → Option A → A → A
unwrap_or (some a) d = a
unwrap_or none d = d

abbrev pub start_with : Option ℕ → Opts → Command
start_with (some hz) o =
    if leb rate_min_hz hz && leb hz rate_max_hz
    then start (unwrap_or o.position 0) (some hz)
    else fail "rate out of range (50..8000 Hz)"
start_with none o = start (unwrap_or o.position 0) none

unfoldable pub parse_start : List (List ℕ) → Command
unfolding parse_opts
parse_start toks = with_opts (parse_opts toks) (λ o. start_with o.rate o)

unfoldable pub parse_monitor : List (List ℕ) → Command
unfolding eq_ignore_ascii_case
parse_monitor [] = monitor toggle
parse_monitor (t ∷ toks) =
    if eq_ignore_ascii_case t (codes "on")
    then monitor on
    else if eq_ignore_ascii_case t (codes "off")
    then monitor off
    else fail usage_monitor

unfoldable pub parse_pd : List (List ℕ) → Command
unfolding parse_int
parse_pd [] = pd none none
parse_pd (p ∷ []) = pd (some (fitted 48 p)) none
parse_pd (p ∷ v ∷ []) =
    with_some (parse_int v) (fail "invalid value") λ n. pd (some (fitted 48 p)) (some n)
parse_pd (p ∷ v ∷ t ∷ toks) = fail usage_pd

unfoldable pub al_state_from_name : List ℕ → Option ℕ
unfolding eq_ignore_ascii_case
al_state_from_name name =
    if eq_ignore_ascii_case name (codes "init")
    then some 0x01
    else if eq_ignore_ascii_case name (codes "preop")
    then some 0x02
    else if eq_ignore_ascii_case name (codes "safeop")
    then some 0x04
    else if eq_ignore_ascii_case name (codes "op")
    then some 0x08
    else none

abbrev pub states_with : ℕ → List (List ℕ) → Command
states_with slave (name ∷ []) =
    with_some (al_state_from_name name) (fail "unknown state (INIT|PREOP|SAFEOP|OP)") (states slave)
states_with slave args = fail usage_states

unfoldable pub parse_states : List (List ℕ) → Command
unfolding parse_opts al_state_from_name
parse_states toks =
    with_opts (parse_opts toks)
      λ o. with_some o.position (fail "states requires -p<pos>") λ slave. states_with slave o.args

-- `Some(v) if v <= max`
abbrev pub at_most : ℕ → Option ℕ → Option ℕ
at_most limit (some v) = if leb v limit then some v else none
at_most limit none = none

-- The type that is named, if one is: none for a name that is not known.
abbrev pub type_named : Option (List ℕ) → Option (Option SdoType)
type_named none = some none
type_named (some name) = elim (find_type name) [ some t ↦ some (some t) | none ↦ none ]

unfoldable pub encode_value : SdoType → List ℕ → Option (List ℕ × ℕ)
unfolding parse_int
encode_value ty s = elim (parse_int s) [
  | some raw ↦ some (value_bytes ty.size raw, ty.size)
  | none ↦ none
]

-- The arguments of a transfer: the index, the subindex and, of a download, the value.
abbrev pub sdo_args : Opts → List ℕ → List ℕ → (ℕ → ℕ → Option SdoType → Command) → Command
sdo_args o i s f = with_some (at_most 65535 (parse_uint i)) (fail "invalid index") λ index.
    with_some (at_most 255 (parse_uint s)) (fail "invalid subindex") λ subindex.
      with_some (type_named o.ty) (fail "unknown type; see 'help'") λ ty. f index subindex ty

abbrev pub upload_with : Opts → ℕ → List (List ℕ) → Command
upload_with o slave (i ∷ s ∷ []) =
    sdo_args o i s (λ index subindex ty. upload slave index subindex ty)
upload_with o slave args = fail usage_upload

abbrev pub download_with : Opts → ℕ → List (List ℕ) → Command
download_with o slave (i ∷ s ∷ v ∷ []) = sdo_args o i s λ index subindex ty.
    with_some ty (fail "download requires -t<type>") λ t.
      with_some (encode_value t v) (fail "invalid value for type")
        λ (e : List ℕ × ℕ). download slave index subindex t e.0 e.1
download_with o slave args = fail usage_download

unfoldable pub parse_sdo : List (List ℕ) → Bool → Command
unfolding parse_opts parse_uint find_type encode_value
parse_sdo toks is_download = with_opts (parse_opts toks) λ o.
    with_some o.position (fail "requires -p<pos>")
      λ slave. (if is_download then download_with o slave o.args else upload_with o slave o.args)

-- `match toks[0] { ... }`
abbrev pub command_of : List ℕ → List (List ℕ) → Command
command_of t toks =
    if says t "help" || says t "?"
    then help
    else if says t "slaves"
    then slaves
    else if says t "status" || says t "info"
    then status
    else if says t "rescan"
    then rescan
    else if says t "states" || says t "state"
    then parse_states toks
    else if says t "upload" || says t "up"
    then parse_sdo toks false
    else if says t "download" || says t "down"
    then parse_sdo toks true
    else if says t "start"
    then parse_start toks
    else if says t "stop"
    then stop
    else if says t "stats"
    then stats
    else if says t "monitor" || says t "mon"
    then parse_monitor toks
    else if says t "pdos"
    then pdos
    else if says t "pd"
    then parse_pd toks
    else if says t "host"
    then host
    else if says t "crashlog"
    then crashlog
    else if says t "crashclear"
    then crashclear
    else fail "unknown command; type 'help'"

abbrev pub first_token : List (List ℕ) → Option Command
first_token [] = none
first_token (t ∷ toks) = some (command_of t toks)

-- `parse`
unfoldable pub parse : List ℕ → Option Command
unfolding same trim split_whitespace parse_states parse_sdo parse_start parse_monitor parse_pd
parse line =
    let toks = split_whitespace (trim line) in
    if is_empty (trim line)
    then some nothing
    else if leb (length toks) 16
    then first_token toks
    else some (fail "too many arguments")

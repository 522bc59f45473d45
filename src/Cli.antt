-- ===== src/Cli.antt =====
-- src/ethercat/cli.rs: a line of the console becomes a command.
pub mod Text
pub mod Numbers
pub mod Parse
pub mod Range
pub mod WellFormed
pub mod Fields
pub mod Accepts
pub mod Format
pub mod Printed
pub mod Blanks
pub mod Reread
pub mod RoundTrip
pub mod TypedBack
use rtic_ecmaster.Base.{
  ℕ, ◌+◌, ◌*◌, Bool, true, false, not, ◌&&◌, ◌||◌, Option, none, some, List, [], ◌∷◌, ◌++◌, ltb,
  leb, ◌==◌, if◌then◌else◌, length, u16, u32,
}
use rtic_ecmaster.Cli.Text.{
  codes, is_empty, same, eq_ignore_ascii_case, strip_prefix, trim, split_whitespace, fitted,
}
use rtic_ecmaster.Cli.Numbers.{parse_uint, parse_int, value_bytes}
use Prim.Native.String.{String}

pub record SdoType : Type 0 where
  pub type_name : List ℕ
  pub type_code : ℕ
  pub size : ℕ

pub data MonitorMode : Type 0 where
  on off toggle : MonitorMode

abbrev pub rate_min_hz : ℕ
rate_min_hz = 50

abbrev pub rate_max_hz : ℕ
rate_max_hz = 8000

abbrev pub sdo_type : String → ℕ → ℕ → SdoType
sdo_type name c n = record { type_name = codes name; type_code = c; size = n }

abbrev pub types : List SdoType
types =
    sdo_type "bool" 0x0001 1
    ∷ sdo_type "int8" 0x0002 1
    ∷ sdo_type "int16" 0x0003 2
    ∷ sdo_type "int32" 0x0004 4
    ∷ sdo_type "uint8" 0x0005 1
    ∷ sdo_type "uint16" 0x0006 2
    ∷ sdo_type "uint32" 0x0007 4
    ∷ []

pub data Command : Type 0 where
  nothing help slaves status rescan stop stats pdos host crashlog crashclear : Command
  states : (slave target : ℕ) → Command
  upload : (slave index subindex : ℕ) (ty : Option SdoType) → Command
  download : (slave index subindex : ℕ) (ty : SdoType) (bytes : List ℕ) (len : ℕ) → Command
  start : (slave : ℕ) (rate_hz : Option ℕ) → Command
  monitor : MonitorMode → Command
  pd : (pin : Option (List ℕ)) (value : Option ℕ) → Command
  error : List ℕ → Command

-- `err`, and the `Result<_, Command>` of the options.
abbrev pub fail : String → Command
fail msg = error (fitted 96 (codes msg))

pub data Result {ℓ} (A : Type ℓ) : Type ℓ where
  ok : A → Result A
  err : Command → Result A

infixl 5 ◌>>=◌
abbrev pub ◌>>=◌ {ℓ κ} : {A : Type ℓ} {B : Type κ} → Result A → (A → Result B) → Result B
ok a >>= f = f a
err e >>= f = err e

-- `o.ok_or_else(|| err(msg))`
abbrev pub ok_or_fail {ℓ} : {A : Type ℓ} → Option A → String → Result A
ok_or_fail (some a) msg = ok a
ok_or_fail none msg = err (fail msg)

abbrev pub find_in : List SdoType → List ℕ → Option SdoType
find_in [] name = none
find_in (t ∷ ts) name = let rest = find_in ts name in if same t.type_name name then some t else rest

unfoldable pub find_type : List ℕ → Option SdoType
unfolding same
find_type name = find_in types name

pub record Opts : Type 0 where
  pub position : Option ℕ
  pub ty : Option (List ℕ)
  pub rate : Option ℕ
  pub args : List (List ℕ)

abbrev pub no_opts : Opts
no_opts = record { position = none; ty = none; rate = none; args = [] }

-- What a token of `parse_opts` is: an option whose value is the next token, an option with its
-- value, an option that is not known, or an argument.
pub data Key : Type 0 where
  position_key rate_key type_key : Key

pub data Token : Type 0 where
  separate : Key → Token
  attached : Key → List ℕ → Token
  unknown argument : Token

abbrev pub says : List ℕ → String → Bool
says t name = same t (codes name)

abbrev pub prefixed : Key → String → List ℕ → Token → Token
prefixed key p t otherwise = elim (strip_prefix (codes p) t) [
  | some rest ↦ attached key rest
  | none ↦ otherwise
]

unfoldable pub classify : List ℕ → Token
unfolding same strip_prefix
classify t =
    if says t "-p" || says t "--position"
    then separate position_key
    else prefixed position_key "-p" t (
        if says t "-r" || says t "--rate"
        then separate rate_key
        else prefixed rate_key "-r" t (
            if says t "-t" || says t "--type"
            then separate type_key
            else prefixed type_key "--type=" t (
                prefixed type_key "-t" t
                  (elim (strip_prefix (codes "-") t) [ some rest ↦ unknown | none ↦ argument ]))))

abbrev pub missing : Key → Command
missing position_key = fail "missing value for -p"
missing rate_key = fail "missing value for -r"
missing type_key = fail "missing value for -t"

unfoldable pub set_opt : Key → List ℕ → Opts → Result Opts
unfolding parse_uint
set_opt position_key v o =
    ok_or_fail (parse_uint v) "invalid position" >>= λ n. ok (record o { position = some (u16 n) })
set_opt rate_key v o =
    ok_or_fail (parse_uint v) "invalid rate" >>= λ n. ok (record o { rate = some (u32 n) })
set_opt type_key v o = ok (record o { ty = some v })

-- One token; a key that is left waits for its value.
abbrev pub take_token : Token → List ℕ → Opts → Result (Option Key × Opts)
take_token (separate key) t o = ok (some key, o)
take_token (attached key v) t o = set_opt key v o >>= λ o'. ok (none, o')
take_token unknown t o = err (fail "unknown option")
take_token argument t o =
    if ltb (length o.args) 8
    then ok (none, record o { args = o.args ++ t ∷ [] })
    else err (fail "too many arguments")

-- The loop of `parse_opts`.
unfoldable pub opts_from : Option Key → Opts → List (List ℕ) → Result Opts
unfolding classify set_opt
opts_from none o [] = ok o
opts_from (some key) o [] = err (missing key)
opts_from (some key) o (v ∷ toks) = set_opt key v o >>= λ o'. opts_from none o' toks
opts_from none o (t ∷ toks) =
    take_token (classify t) t o >>= λ (w : Option Key × Opts). opts_from w.0 w.1 toks

unfoldable pub parse_opts : List (List ℕ) → Result Opts
unfolding opts_from
parse_opts toks = opts_from none no_opts toks

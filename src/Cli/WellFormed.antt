-- ===== src/Cli/WellFormed.antt =====
-- What a command of the console is sure to be, and the options that carry it.
use rtic_ecmaster.Base.{
  if_holds, ℕ, ◌≤◌, ◌<◌, ◌≡◌, ◌^◌, ◌⊎◌, inl, inr, arith, Option, none, some, ltb, List, [], ◌∷◌,
  length, All, u16, u32,
}
use Prim.Native.String.{String}
use rtic_ecmaster.Cli.Text.{codes, fitted}
use rtic_ecmaster.Cli.Numbers.{parse_uint}
use rtic_ecmaster.Cli.Range.{Below}
use rtic_ecmaster.Cli.{
  missing, fail, ok_or_fail, ◌>>=◌, SdoType, rate_min_hz, rate_max_hz, Command, states, upload,
  download, start, pd, error, Result, ok, err, Opts, no_opts, Key, position_key, rate_key, type_key,
  Token, separate, attached, unknown, argument, classify, set_opt, take_token, opts_from,
  parse_opts,
}
use rtic_ecmaster.Cli.Parse.{with_opts, with_some}

-- A row of the table of types.
abbrev pub IsType : SdoType → Type 0
IsType t = ((t.size ≡ 1) ⊎ (t.size ≡ 2) ⊎ (t.size ≡ 4))

pub type_size : (t : SdoType) → IsType t → t.size ≤ 4
type_size t (inl e) = omega arith
type_size t (inr (inl e)) = omega arith
type_size t (inr (inr e)) = omega arith

abbrev pub MaybeType : Option SdoType → Type 0
MaybeType none = Unit
MaybeType (some t) = IsType t

abbrev pub RateInRange : Option ℕ → Type 0
RateInRange none = Unit
RateInRange (some hz) = (rate_min_hz ≤ hz) × (hz ≤ rate_max_hz)

abbrev pub PinFits : Option (List ℕ) → Type 0
PinFits none = Unit
PinFits (some p) = length p ≤ 48

-- INIT, PREOP, SAFEOP and OP.
abbrev pub IsTarget : ℕ → Type 0
IsTarget s = (s ≡ 1) ⊎ (s ≡ 2) ⊎ (s ≡ 4) ⊎ (s ≡ 8)

-- The ranges of the fields, and the rules between them.
unfoldable pub IsWellFormed : Command → Type 0
IsWellFormed (states slave target) = (slave < 65536) × IsTarget target
IsWellFormed (upload slave index subindex ty) =
    (slave < 65536) × (index < 65536) × (subindex < 256) × MaybeType ty
IsWellFormed (download slave index subindex ty bytes len) =
    (slave < 65536)
    × (index < 65536)
    × (subindex < 256)
    × IsType ty
    × (len ≡ ty.size)
    × (length bytes ≡ 4)
    × All (λ b. b < 256) bytes
IsWellFormed (start slave rate) = (slave < 65536) × RateInRange rate
IsWellFormed (pd pin value) = PinFits pin × Below value (2 ^ 64)
IsWellFormed (error msg) = length msg ≤ 96
IsWellFormed c = Unit {0}

-- The texts of the errors fit their buffer, and so do the pins.
pub fitted-le : (room : ℕ) (s : List ℕ) → length (fitted room s) ≤ room
fitted-le room s = ground arith

pub fail-IsWellFormed : (msg : String) → IsWellFormed (fail msg)
unfolding IsWellFormed
fail-IsWellFormed msg = fitted-le 96 (codes msg)

-- The options: positions and rates are cut to their widths, and there are no more than 8 arguments.
abbrev pub OptsValid : Opts → Type 0
OptsValid o = Below o.position 65536

abbrev pub Holds : {A : Type 0} → (A → Type 0) → Result A → Type 0
Holds P (ok a) = P a
Holds P (err e) = IsWellFormed e

abbrev pub OptsGood : Result Opts → Type 0
OptsGood r = Holds OptsValid r

abbrev pub Each {ℓ κ} : {A : Type ℓ} → (A → Type κ) → Option A → Type κ
Each P none = Unit
Each P (some a) = P a

set_opt-OptsGood : (key : Key) (v : List ℕ) (o : Opts) → OptsValid o → OptsGood (set_opt key v o)
unfolding set_opt
set_opt-OptsGood position_key v o h =
    elim (parse_uint v)
      as (λ n.
        OptsGood
          (ok_or_fail n "invalid position" >>= λ k. ok (record o { position = some (u16 k) }))) [
            | some n ↦ omega arith
            | none ↦ fail-IsWellFormed "invalid position"
          ]
set_opt-OptsGood rate_key v o h =
    elim (parse_uint v)
      as (λ n.
        OptsGood (ok_or_fail n "invalid rate" >>= λ k. ok (record o { rate = some (u32 k) }))) [
          | some n ↦ h
          | none ↦ fail-IsWellFormed "invalid rate"
        ]
set_opt-OptsGood type_key v o h = h

bind_good :
    {A : Type 0} (P : A → Type 0) (r : Result A) (f : A → Result Opts)
    → Holds P r
    → ((a : A) → P a → OptsGood (f a))
    → OptsGood (r >>= f)
bind_good P (ok a) f h k = k a h
bind_good P (err e) f h k = h

missing-IsWellFormed : (key : Key) → IsWellFormed (missing key)
missing-IsWellFormed position_key = fail-IsWellFormed "missing value for -p"
missing-IsWellFormed rate_key = fail-IsWellFormed "missing value for -r"
missing-IsWellFormed type_key = fail-IsWellFormed "missing value for -t"

take_token-OptsGood :
    (k : Token) (t : List ℕ) (o : Opts)
    → OptsValid o
    → Holds (λ (w : Option Key × Opts). OptsValid w.1) (take_token k t o)
take_token-OptsGood (separate key) t o h = h
take_token-OptsGood (attached key v) t o h = attach (set_opt key v o) (set_opt-OptsGood key v o h)
  where
    attach :
        (r : Result Opts)
        → OptsGood r
        → Holds (λ (w : Option Key × Opts). OptsValid w.1) (r >>= λ o'. ok (none, o'))
    attach (ok o') g = g
    attach (err e) g = g
take_token-OptsGood unknown t o h = fail-IsWellFormed "unknown option"
take_token-OptsGood argument t o h =
    if_holds (Holds (λ (w : Option Key × Opts). OptsValid w.1)) (ltb (length o.args) 8) (λ _. h)
      (fail-IsWellFormed "too many arguments")

opts_from-OptsGood :
    (key : Option Key) (o : Opts) (toks : List (List ℕ))
    → OptsValid o
    → OptsGood (opts_from key o toks)
unfolding opts_from
opts_from-OptsGood none o [] h = h
opts_from-OptsGood (some key) o [] h = missing-IsWellFormed key
opts_from-OptsGood (some key) o (v ∷ toks) h =
    bind_good OptsValid (set_opt key v o) (λ o'. opts_from none o' toks)
      (set_opt-OptsGood key v o h) (λ o' g. opts_from-OptsGood none o' toks g)
opts_from-OptsGood none o (t ∷ toks) h =
    bind_good (λ (w : Option Key × Opts). OptsValid w.1) (take_token (classify t) t o)
      (λ (w : Option Key × Opts). opts_from w.0 w.1 toks) (take_token-OptsGood (classify t) t o h)
      (λ w g. opts_from-OptsGood w.0 w.1 toks g)

-- The parts of the parsers.
pub with_opts-IsWellFormed :
    (toks : List (List ℕ)) (f : Opts → Command)
    → ((o : Opts) → OptsValid o → IsWellFormed (f o))
    → IsWellFormed (with_opts (parse_opts toks) f)
unfolding parse_opts
with_opts-IsWellFormed toks f k =
    both (opts_from none no_opts toks) (opts_from-OptsGood none no_opts toks tt)
  where
    both : (r : Result Opts) → OptsGood r → IsWellFormed (with_opts r f)
    both (ok o) g = k o g
    both (err e) g = g

pub with_some-IsWellFormed {ℓ κ} :
    {A : Type ℓ} (P : A → Type κ) (a : Option A) (msg : String) (f : A → Command)
    → Each P a
    → ((x : A) → P x → IsWellFormed (f x))
    → IsWellFormed (with_some a (fail msg) f)
with_some-IsWellFormed P (some a) msg f h k = k a h
with_some-IsWellFormed P none msg f h k = fail-IsWellFormed msg

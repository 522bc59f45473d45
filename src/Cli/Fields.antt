-- ===== src/Cli/Fields.antt =====
-- The parts of a command: a rate, a type, a target, the bytes of a value.
use rtic_ecmaster.Base.{
  if_holds, ℕ, ◌≤◌, ◌<◌, ◌≡◌, inl, inr, refl, arith, ◌&&◌, Option, none, some, leb→le, leb, List,
  [], ◌∷◌, length, All,
}
use rtic_ecmaster.Cli.Text.{codes, same, eq_ignore_ascii_case}
use rtic_ecmaster.Cli.Numbers.{parse_int, value_byte, value_bytes}
use rtic_ecmaster.Cli.Range.{Below}
use rtic_ecmaster.Cli.{SdoType, rate_min_hz, rate_max_hz, types, find_in, find_type, Opts}
use rtic_ecmaster.Cli.Parse.{
  start_with, al_state_from_name, unwrap_or, at_most, type_named, encode_value,
}
use rtic_ecmaster.Cli.WellFormed.{
  IsType, MaybeType, IsTarget, IsWellFormed, fitted-le, OptsValid, Each,
}

position_or : (p : Option ℕ) → Below p 65536 → unwrap_or p 0 < 65536
position_or (some p) b = b
position_or none b = omega arith

pub start_with-IsWellFormed :
    (rate : Option ℕ) (o : Opts) → OptsValid o → IsWellFormed (start_with rate o)
unfolding IsWellFormed
start_with-IsWellFormed (some hz) o h =
    if_holds IsWellFormed (leb rate_min_hz hz && leb hz rate_max_hz)
      (λ fits. (position_or o.position h, (ground arith, ground arith)))
      (fitted-le 96 (codes "rate out of range (50..8000 Hz)"))
start_with-IsWellFormed none o h = (position_or o.position h, tt)

pub Each-Below : (n : ℕ) (o : Option ℕ) → Below o n → Each (λ (k : ℕ). k < n) o
Each-Below n (some k) h = h
Each-Below n none h = tt

pub at_most-Each : (limit : ℕ) (o : Option ℕ) → Each (λ (k : ℕ). k ≤ limit) (at_most limit o)
at_most-Each limit (some v) =
    if_holds (Each (λ (k : ℕ). k ≤ limit)) (leb v limit) (λ fits. leb→le v limit fits) tt
at_most-Each limit none = tt

find_type-Each : (name : List ℕ) → Each IsType (find_type name)
unfolding find_type
find_type-Each name = found types (omega arith)
  where
    found : (ts : List SdoType) → All IsType ts → Each IsType (find_in ts name)
    found [] h = tt
    found (t ∷ ts) h = if_holds (Each IsType) (same t.type_name name) (λ _. h.0) (found ts h.1)

pub type_named-Each : (name : Option (List ℕ)) → Each MaybeType (type_named name)
type_named-Each none = tt
type_named-Each (some name) = named (find_type name) (find_type-Each name)
  where
    named :
        (t : Option SdoType)
        → Each IsType t
        → Each MaybeType (elim t [ some t ↦ some (some t) | none ↦ none ])
    named (some t) h = h
    named none h = tt

pub al_state_from_name-Each : (name : List ℕ) → Each IsTarget (al_state_from_name name)
unfolding al_state_from_name
al_state_from_name-Each name =
    if_holds (Each IsTarget) (eq_ignore_ascii_case name (codes "init")) (λ _. inl refl)
      (if_holds (Each IsTarget) (eq_ignore_ascii_case name (codes "preop")) (λ _. inr (inl refl))
        (if_holds (Each IsTarget) (eq_ignore_ascii_case name (codes "safeop"))
          (λ _. inr (inr (inl refl)))
          (if_holds (Each IsTarget) (eq_ignore_ascii_case name (codes "op"))
            (λ _. inr (inr (inr refl))) tt)))

-- The bytes of a value are those of its type.
abbrev pub Encodes : SdoType → List ℕ × ℕ → Type 0
Encodes ty e = (e.1 ≡ ty.size) × (length e.0 ≡ 4) × All (λ b. b < 256) e.0

value_byte-lt : (size raw i : ℕ) → value_byte size raw i < 256
value_byte-lt size raw i = ground arith

pub encode_value-Each : (ty : SdoType) (s : List ℕ) → Each (Encodes ty) (encode_value ty s)
unfolding encode_value
encode_value-Each ty s = encoded (parse_int s)
  where
    encoded :
        (v : Option ℕ)
        → Each
            (Encodes ty)
            (elim v [ some raw ↦ some (value_bytes ty.size raw, ty.size) | none ↦ none ])
    encoded (some raw) = (
      refl,
      refl,
      (
        value_byte-lt ty.size raw 0,
        (
          value_byte-lt ty.size raw 1,
          (value_byte-lt ty.size raw 2, (value_byte-lt ty.size raw 3, tt)),
        ),
      ),
    )
    encoded none = tt

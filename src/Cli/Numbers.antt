-- ===== src/Cli/Numbers.antt =====
-- The numbers of src/ethercat/cli.rs: their base goes by the prefix. A `u64` is its value, an `i64`
-- its 64-bit pattern.
use rtic_ecmaster.Base.{
  ℕ, ◌+◌, ◌-◌, ◌*◌, ◌/◌, ◌^◌, ◌&&◌, ◌||◌, Option, none, some, List, [], ◌∷◌, ltb, leb, ◌==◌,
  if◌then◌else◌, u8, u16, u64,
}
use rtic_ecmaster.Base.Checked.{◌>>=◌}
use rtic_ecmaster.Cli.Text.{codes, is_empty, strip_prefix, trim}

-- `char::to_digit`
unfoldable pub to_digit : ℕ → ℕ → Option ℕ
to_digit radix c =
    let d =
      (if leb b'0' c && leb c b'9'
        then c - b'0'
        else if leb b'a' c && leb c b'z'
        then c - b'a' + 10
        else if leb b'A' c && leb c b'Z'
        then c - b'A' + 10
        else radix) in
    if ltb d radix then some d else none

-- The digits behind the value `acc`, while it fits 64 bits.
unfoldable pub digits_from : ℕ → ℕ → List ℕ → Option ℕ
unfolding to_digit
digits_from radix acc [] = some acc
digits_from radix acc (c ∷ cs) = to_digit radix c >>= λ d.
    (let rest = digits_from radix (acc * radix + d) cs in
      if ltb (acc * radix + d) (2 ^ 64) then rest else none)

-- `u64::from_str_radix`, which takes a sign `+` and refuses an empty text.
unfoldable pub from_str_radix : ℕ → List ℕ → Option ℕ
unfolding digits_from
from_str_radix radix [] = none
from_str_radix radix (c ∷ cs) =
    if (c == b'+' || c == b'-') && is_empty cs
    then none
    else if c == b'+'
    then digits_from radix 0 cs
    else digits_from radix 0 (c ∷ cs)

-- `s.strip_prefix(p).or_else(|| s.strip_prefix(q))`
abbrev pub strip_either : List ℕ → List ℕ → List ℕ → Option (List ℕ)
strip_either p q s = elim (strip_prefix p s) [ some rest ↦ some rest | none ↦ strip_prefix q s ]

-- The digits behind `0x`, behind `0b`, or of the whole text.
abbrev pub by_prefix : Option (List ℕ) → Option (List ℕ) → List ℕ → Option ℕ
by_prefix (some hex) bin s = from_str_radix 16 hex
by_prefix none (some bin) s = from_str_radix 2 bin
by_prefix none none s = from_str_radix 10 s

abbrev pub parse_trimmed : List ℕ → Option ℕ
parse_trimmed s =
    by_prefix (strip_either (codes "0x") (codes "0X") s) (strip_either (codes "0b") (codes "0B") s)
      s

unfoldable pub parse_uint : List ℕ → Option ℕ
unfolding trim strip_prefix from_str_radix
parse_uint s = parse_trimmed (trim s)

-- The negation of the `i64` with the pattern `v`, which wraps at the least value.
abbrev pub negated : ℕ → ℕ
negated v = u64 (2 ^ 64 - v)

abbrev pub signed : Option (List ℕ) → List ℕ → Option ℕ
signed (some rest) s = parse_uint rest >>= λ v. some (negated v)
signed none s = parse_uint s

unfoldable pub parse_int : List ℕ → Option ℕ
unfolding parse_uint
parse_int s = signed (strip_prefix (codes "-") (trim s)) (trim s)

-- The four bytes of a value of `size` bytes, low byte first.
abbrev pub value_byte : ℕ → ℕ → ℕ → ℕ
value_byte size raw i = if ltb i size then u8 (raw / 2 ^ (8 * i)) else 0

abbrev pub value_bytes : ℕ → ℕ → List ℕ
value_bytes size raw =
    value_byte size raw 0
    ∷ value_byte size raw 1
    ∷ value_byte size raw 2
    ∷ value_byte size raw 3
    ∷ []

-- `sign_extend`: from the low `size` bytes to the pattern of an `i32`.
unfoldable pub sign_extend : ℕ → ℕ → ℕ
sign_extend raw size =
    let byte = u8 raw in
    let word = u16 raw in
    if size == 1
    then if ltb byte (2 ^ 7) then byte else byte + (2 ^ 32 - 2 ^ 8)
    else if size == 2
    then if ltb word (2 ^ 15) then word else word + (2 ^ 32 - 2 ^ 16)
    else raw

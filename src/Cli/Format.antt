-- ===== src/Cli/Format.antt =====
-- src/ethercat/cli.rs: the text of an uploaded value, with the formatting of `core::fmt` that it
-- calls: numbers in decimal, and in hexadecimal behind zeros up to a width.
use rtic_ecmaster.Base.{
  ℕ, zero, suc, ◌+◌, ◌-◌, ◌*◌, ◌/◌, ◌%◌, ◌^◌, Bool, ◌||◌, Option, none, some, List, [], ◌∷◌, ◌++◌,
  ltb, leb, ◌==◌, if◌then◌else◌, length, take, replicate, min,
}
use rtic_ecmaster.Cli.{SdoType}
use rtic_ecmaster.Cli.Text.{codes}
use rtic_ecmaster.Cli.Numbers.{sign_extend}

abbrev pub digit_char : ℕ → ℕ
digit_char d = if ltb d 10 then b'0' + d else b'a' + (d - 10)

-- The digits of a number in front of `acc`; as many rounds as bits are enough in every base.
unfoldable pub number_digits : ℕ → ℕ → ℕ → List ℕ → List ℕ
number_digits zero radix n acc = acc
number_digits (suc rounds) radix n acc =
    let more = number_digits rounds radix (n / radix) (digit_char (n % radix) ∷ acc) in
    if ltb n radix then digit_char n ∷ acc else more

abbrev pub decimal : ℕ → List ℕ
decimal n = number_digits 64 10 n []

abbrev pub hexadecimal : ℕ → List ℕ
hexadecimal n = number_digits 64 16 n []

-- `write!` on a `heapless::String<N>`: piece by piece, up to the first that does not fit.
unfoldable pub write : ℕ → List ℕ → List (List ℕ) → List ℕ
write room s [] = s
write room s (piece ∷ pieces) =
    let rest = write room (s ++ piece) pieces in
    if leb (length s + length piece) room then rest else s

-- The pieces of `{:0width$x}`: the zeros are written one by one.
unfoldable pub padded_hex : ℕ → ℕ → List (List ℕ)
unfolding number_digits
padded_hex width n = replicate (width - length (hexadecimal n)) (codes "0") ++ hexadecimal n ∷ []

-- The pieces of `{}` on an `i32` with the pattern `v`.
unfoldable pub signed_decimal : ℕ → List (List ℕ)
unfolding number_digits
signed_decimal v = if ltb v (2 ^ 31) then decimal v ∷ [] else codes "-" ∷ decimal (2 ^ 32 - v) ∷ []

-- `raw |= (data[i] as u32) << (8 * i)` over the bytes.
abbrev pub le_value : List ℕ → ℕ
le_value [] = 0
le_value (b ∷ bs) = b + 256 * le_value bs

-- `matches!(t.code, 0x0002 | 0x0003 | 0x0004)`
abbrev pub is_signed : SdoType → Bool
is_signed t = t.type_code == 2 || t.type_code == 3 || t.type_code == 4

-- The loop over the bytes of a value without a type.
unfoldable pub format_bytes : List ℕ → List ℕ → List ℕ
unfolding write padded_hex
format_bytes s [] = s
format_bytes s (b ∷ bs) =
    format_bytes (write 80 (write 80 s (codes " " ∷ [])) (codes "0x" ∷ padded_hex 2 b)) bs

-- The pieces of `0x{:0width$x} {}`.
abbrev pub value_pieces : SdoType → ℕ → List (List ℕ)
value_pieces t raw =
    (codes "0x" ∷ padded_hex (t.size * 2) raw)
    ++ (codes " "
        ∷ (if is_signed t then signed_decimal (sign_extend raw t.size) else decimal raw ∷ []))

unfoldable pub format_value : Option SdoType → List ℕ → List ℕ
unfolding format_bytes sign_extend signed_decimal
format_value none [] = []
format_value none (b ∷ bs) = format_bytes (write 80 [] (codes "0x" ∷ padded_hex 2 b)) bs
format_value (some t) bytes =
    write 80 [] (value_pieces t (le_value (take (min t.size (length bytes)) bytes)))

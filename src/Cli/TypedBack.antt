-- ===== src/Cli/TypedBack.antt =====
-- The text of an uploaded value, typed back as a download.
use mathlib.Core.Path.{subst}
use rtic_ecmaster.Base.{
  ℕ, ◌+◌, ◌-◌, ◌*◌, ◌^◌, ◌<◌, ◌≡◌, ◌⊎◌, inl, inr, refl, sym, ◌∙◌, ap, arith, Bool, true, false,
  Bool-cases, some, List, [], ◌∷◌, ◌++◌, ltb, ltb→lt, if◌then◌else◌, length, All, take, u8, u16,
  u32,
}
use rtic_ecmaster.Cli.Text.{codes, split_whitespace}
use rtic_ecmaster.Cli.Numbers.{parse_int, negated, value_bytes, sign_extend}
use rtic_ecmaster.Cli.{SdoType}
use rtic_ecmaster.Cli.Parse.{encode_value}
use rtic_ecmaster.Cli.WellFormed.{IsType, type_size}
use rtic_ecmaster.Cli.Format.{hexadecimal, decimal, le_value, is_signed, format_value}
use rtic_ecmaster.Cli.Reread.{wide_hex, parse_int-decimal, parse_int-minus, parse_int-hex}
use rtic_ecmaster.Cli.RoundTrip.{signed_text, value_text, format_value-words}

-- The bytes of a value in the buffer of a download.
abbrev pub in_buffer : List ℕ → List ℕ
in_buffer bytes = take 4 (bytes ++ (0 ∷ 0 ∷ 0 ∷ []))

-- The number that a printed value stands for.
abbrev signed_number : ℕ → ℕ
signed_number v = if ltb v (2 ^ 31) then v else negated (2 ^ 32 - v)

-- What the round trip needs of the bytes of a value: the number they make fits the size, and its
-- low bytes are these bytes, also behind the sign extension.
abbrev Kept : List ℕ → ℕ → Type 0
Kept bytes size =
    (le_value bytes < 2 ^ 32)
    × (value_bytes size (le_value bytes) ≡ in_buffer bytes)
    × (value_bytes size (signed_number (sign_extend (le_value bytes) size)) ≡ in_buffer bytes)

low_byte : (raw : ℕ) → raw < 256 → u8 (signed_number (sign_extend raw 1)) ≡ raw
unfolding sign_extend
low_byte raw h = ground arith

low_word : (raw : ℕ) → raw < 65536 → u16 (signed_number (sign_extend raw 2)) ≡ raw
unfolding sign_extend
low_word raw h = ground arith

low_long : (raw : ℕ) → raw < 4294967296 → u32 (signed_number (sign_extend raw 4)) ≡ raw
unfolding sign_extend
low_long raw h = ground arith

one-Kept : (bytes : List ℕ) → length bytes ≡ 1 → All (λ b. b < 256) bytes → Kept bytes 1
one-Kept [] l h = absurd (omega arith)
one-Kept (a ∷ []) l h =
    let low = low_byte (a + 256 * 0) (omega arith) in
    (
      omega arith,
      ap (λ v. v ∷ 0 ∷ 0 ∷ 0 ∷ []) (omega arith),
      ap (λ v. v ∷ 0 ∷ 0 ∷ 0 ∷ []) (omega arith),
    )
one-Kept (a ∷ b ∷ r) l h = absurd (omega arith)

four :
    {a b c d a' b' c' d' : ℕ}
    → a ≡ a'
    → b ≡ b'
    → c ≡ c'
    → d ≡ d'
    → ◌≡◌ {A = List ℕ} (a ∷ b ∷ c ∷ d ∷ []) (a' ∷ b' ∷ c' ∷ d' ∷ [])
four p q r s = cc

two-Kept : (bytes : List ℕ) → length bytes ≡ 2 → All (λ b. b < 256) bytes → Kept bytes 2
two-Kept [] l h = absurd (omega arith)
two-Kept (a ∷ []) l h = absurd (omega arith)
two-Kept (a ∷ b ∷ []) l h =
    let low = low_word (a + 256 * (b + 256 * 0)) (omega arith) in
    (
      omega arith,
      four (omega arith) (omega arith) refl refl,
      four (omega arith) (omega arith) refl refl,
    )
two-Kept (a ∷ b ∷ c ∷ r) l h = absurd (omega arith)

four-Kept : (bytes : List ℕ) → length bytes ≡ 4 → All (λ b. b < 256) bytes → Kept bytes 4
four-Kept [] l h = absurd (omega arith)
four-Kept (a ∷ []) l h = absurd (omega arith)
four-Kept (a ∷ b ∷ []) l h = absurd (omega arith)
four-Kept (a ∷ b ∷ c ∷ []) l h = absurd (omega arith)
four-Kept (a ∷ b ∷ c ∷ d ∷ []) l h =
    let low = low_long (a + 256 * (b + 256 * (c + 256 * (d + 256 * 0)))) (omega arith) in
    (
      omega arith,
      four (omega arith) (omega arith) (omega arith) (omega arith),
      four (omega arith) (omega arith) (omega arith) (omega arith),
    )
four-Kept (a ∷ b ∷ c ∷ d ∷ e ∷ r) l h = absurd (omega arith)

bytes-Kept :
    (size : ℕ) (bytes : List ℕ)
    → (size ≡ 1) ⊎ (size ≡ 2) ⊎ (size ≡ 4)
    → length bytes ≡ size
    → All (λ b. b < 256) bytes
    → Kept bytes size
bytes-Kept size bytes (inl e) l h = subst (Kept bytes) (sym e) (one-Kept bytes (l ∙ e) h)
bytes-Kept size bytes (inr (inl e)) l h = subst (Kept bytes) (sym e) (two-Kept bytes (l ∙ e) h)
bytes-Kept size bytes (inr (inr e)) l h = subst (Kept bytes) (sym e) (four-Kept bytes (l ∙ e) h)

signed_text-reads : (v : ℕ) → parse_int (signed_text v) ≡ some (signed_number v)
signed_text-reads v = elim (Bool-cases (ltb v (2 ^ 31))) [
  | inl low ↦ rw low (parse_int-decimal v (omega (arith, ltb→lt v (2 ^ 31) low)))
  | inr high ↦ rw high (parse_int-minus (2 ^ 32 - v) (omega arith))
]

encode_value-reads :
    (t : SdoType) (s : List ℕ) (raw : ℕ)
    → parse_int s ≡ some raw
    → encode_value t s ≡ some (value_bytes t.size raw, t.size)
unfolding encode_value
encode_value-reads t s raw e = rw (e, encode_value)

value_text-reads :
    (t : SdoType) (bytes : List ℕ)
    → Kept bytes t.size
    → encode_value t (value_text t (le_value bytes)) ≡ some (in_buffer bytes, t.size)
value_text-reads t bytes k = both (is_signed t)
  where
    both :
        (b : Bool)
        → encode_value t (
            if b
            then signed_text (sign_extend (le_value bytes) t.size)
            else decimal (le_value bytes))
          ≡ some (in_buffer bytes, t.size)
    both true =
        encode_value-reads t (signed_text (sign_extend (le_value bytes) t.size))
          (signed_number (sign_extend (le_value bytes) t.size))
          (signed_text-reads (sign_extend (le_value bytes) t.size))
        ∙ ap (λ (v : List ℕ). some (v, t.size)) k.2
    both false =
        encode_value-reads t (decimal (le_value bytes)) (le_value bytes)
          (parse_int-decimal (le_value bytes) (omega (arith, k.0)))
        ∙ ap (λ (v : List ℕ). some (v, t.size)) k.1

-- For a type of one, two or four bytes and that many bytes of a value: what an upload prints is two
-- words, a number in hexadecimal and one in decimal, and a download of either of them encodes the
-- same bytes again, of signed and of unsigned types alike.
pub encode_value-format_value :
    (t : SdoType) (bytes : List ℕ)
    → IsType t
    → length bytes ≡ t.size
    → All (λ b. b < 256) bytes
    → (hex number : List ℕ) × (split_whitespace (format_value (some t) bytes) ≡ hex ∷ number ∷ [])
      × (encode_value t hex ≡ some (in_buffer bytes, t.size))
      × (encode_value t number ≡ some (in_buffer bytes, t.size))
encode_value-format_value t bytes typed l h =
    let k = bytes-Kept t.size bytes typed l h in
    let raw : ℕ = le_value bytes in
    let zeros : ℕ = t.size * 2 - length (hexadecimal raw) in
    (
      codes "0x" ++ wide_hex zeros raw,
      value_text t raw,
      format_value-words t bytes (type_size t typed) l k.0,
      encode_value-reads t (codes "0x" ++ wide_hex zeros raw) raw
            (parse_int-hex zeros raw (omega (arith, k.0)))
          ∙ ap (λ (v : List ℕ). some (v, t.size)) k.1,
      value_text-reads t bytes k,
    )

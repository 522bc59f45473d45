-- ===== src/Cli/RoundTrip.antt =====
-- The text of an uploaded value, typed back as a download, writes the same bytes.
use rtic_ecmaster.Base.{
  if_holds, length-replicate, take_all, append-nil, le→leb, ℕ, zero, suc, ◌+◌, ◌-◌, ◌*◌, ◌^◌, ◌≤◌,
  ◌<◌, ◌≡◌, inl, inr, refl, sym, ◌∙◌, ap, arith, Bool, true, false, Bool-cases, some, List, [], ◌∷◌,
  ◌++◌, append_assoc, ltb, ltb→lt, ltb→le, if◌then◌else◌, length, length-append, min, replicate,
}
use rtic_ecmaster.Cli.Text.{codes, split_whitespace}
use rtic_ecmaster.Cli.Numbers.{sign_extend}
use rtic_ecmaster.Cli.{SdoType}
use rtic_ecmaster.Cli.Format.{
  decimal, hexadecimal, write, padded_hex, signed_decimal, le_value, is_signed, value_pieces,
  format_value,
}
use rtic_ecmaster.Cli.Printed.{length-number_digits, number_digits-ne-nil}
use rtic_ecmaster.Cli.Blanks.{IsSolid, split_whitespace-two}
use rtic_ecmaster.Cli.Reread.{
  plain-IsSolid, decimal-IsPlain, wide_hex, wide_hex-IsPlain, prefixed-IsSolid,
}

-- The pieces of a text that fits are all written.
abbrev joined : List (List ℕ) → List ℕ
joined [] = []
joined (p ∷ ps) = p ++ joined ps

write_fits :
    (room : ℕ) (s : List ℕ) (ps : List (List ℕ))
    → length s + length (joined ps) ≤ room
    → write room s ps ≡ s ++ joined ps
unfolding write
write_fits room s [] h = sym (append-nil s)
write_fits room s (p ∷ ps) h =
    rw (le→leb (length s + length p) room (omega (arith, length-append p (joined ps)))) (
      write_fits room (s ++ p) ps (omega (arith, length-append s p, length-append p (joined ps)))
      ∙ append_assoc s p (joined ps))

joined-append : (ps qs : List (List ℕ)) → joined (ps ++ qs) ≡ joined ps ++ joined qs
joined-append [] qs = refl
joined-append (p ∷ ps) qs = rw (joined-append ps qs) (sym (append_assoc p (joined ps) (joined qs)))

joined-zeros :
    (k : ℕ) (s : List ℕ) → joined (replicate k (codes "0") ++ s ∷ []) ≡ replicate k b'0' ++ s
joined-zeros zero s = append-nil s
joined-zeros (suc k) s = ap (λ t. b'0' ∷ t) (joined-zeros k s)

-- The text of an `i32` with the pattern `v`, and of a value of a type.
abbrev pub signed_text : ℕ → List ℕ
signed_text v = if ltb v (2 ^ 31) then decimal v else codes "-" ++ decimal (2 ^ 32 - v)

abbrev pub value_text : SdoType → ℕ → List ℕ
value_text t raw = if is_signed t then signed_text (sign_extend raw t.size) else decimal raw

joined-signed_decimal : (v : ℕ) → joined (signed_decimal v) ≡ signed_text v
unfolding signed_decimal
joined-signed_decimal v = elim (Bool-cases (ltb v (2 ^ 31))) [
  | inl low ↦ rw low (append-nil (decimal v))
  | inr high ↦ rw high (ap (λ t. b'-' ∷ t) (append-nil (decimal (2 ^ 32 - v))))
]

value_pieces_joined :
    (t : SdoType) (raw : ℕ)
    → joined (if is_signed t then signed_decimal (sign_extend raw t.size) else decimal raw ∷ [])
      ≡ value_text t raw
value_pieces_joined t raw = both (is_signed t)
  where
    both :
        (b : Bool)
        → joined (if b then signed_decimal (sign_extend raw t.size) else decimal raw ∷ [])
          ≡ (if b then signed_text (sign_extend raw t.size) else decimal raw)
    both true = joined-signed_decimal (sign_extend raw t.size)
    both false = append-nil (decimal raw)

joined-padded_hex :
    (width n : ℕ) → joined (padded_hex width n) ≡ wide_hex (width - length (hexadecimal n)) n
unfolding padded_hex
joined-padded_hex width n = joined-zeros (width - length (hexadecimal n)) (hexadecimal n)

-- Texts of 32-bit numbers are short.
length-decimal : (n : ℕ) → n < 2 ^ 32 → length (decimal n) ≤ 32
length-decimal n h = omega (arith, length-number_digits 10 (omega arith) (omega arith) 64 31 n [] h)

length-value_text : (t : SdoType) (raw : ℕ) → raw < 2 ^ 32 → length (value_text t raw) ≤ 33
length-value_text t raw h = elim (Bool-cases (is_signed t)) [
  | inr plain ↦ rw plain (omega (arith, length-decimal raw h))
  | inl signed_type ↦ rw signed_type (signed_length (sign_extend raw t.size))
]
  where
    signed_length : (v : ℕ) → length (signed_text v) ≤ 33
    signed_length v = elim (Bool-cases (ltb v (2 ^ 31))) [
      | inl low ↦ rw low (omega (arith, length-decimal v (omega (arith, ltb→lt v (2 ^ 31) low))))
      | inr high ↦
          rw high
            (omega (arith, length-decimal (2 ^ 32 - v) (omega (arith, ltb→le v (2 ^ 31) high))))
    ]

length-wide_hex :
    (size n : ℕ)
    → size ≤ 4
    → n < 2 ^ 32
    → length (wide_hex (size * 2 - length (hexadecimal n)) n) ≤ 40
length-wide_hex size n s h = omega (
  arith,
  length-append (replicate (size * 2 - length (hexadecimal n)) b'0') (hexadecimal n),
  length-replicate {A = ℕ} (size * 2 - length (hexadecimal n)) b'0',
  length-number_digits 16 (omega arith) (omega arith) 64 31 n [] h,
)

-- Eight hexadecimal digits, a blank and a decimal number: the buffer is never full.
pub pieces_text :
    (t : SdoType) (raw : ℕ)
    → t.size ≤ 4
    → raw < 2 ^ 32
    → write 80 [] (value_pieces t raw)
      ≡ (codes "0x" ++ wide_hex (t.size * 2 - length (hexadecimal raw)) raw)
        ++ (32 ∷ value_text t raw)
pieces_text t raw small h =
    let value : List (List ℕ) =
      (if is_signed t then signed_decimal (sign_extend raw t.size) else decimal raw ∷ []) in
    let all_joined : joined ((codes "0x" ∷ padded_hex (t.size * 2) raw) ++ (codes " " ∷ value))
        ≡ (codes "0x" ++ wide_hex (t.size * 2 - length (hexadecimal raw)) raw)
          ++ (32 ∷ value_text t raw) =
      joined-append (codes "0x" ∷ padded_hex (t.size * 2) raw) (codes " " ∷ value)
      ∙ rw (joined-padded_hex (t.size * 2) raw, value_pieces_joined t raw) in
    write_fits 80 [] ((codes "0x" ∷ padded_hex (t.size * 2) raw) ++ (codes " " ∷ value)) (
      omega (
        arith,
        ap length all_joined,
        length-append (codes "0x" ++ wide_hex (t.size * 2 - length (hexadecimal raw)) raw)
            (32 ∷ value_text t raw),
        length-wide_hex t.size raw small h,
        length-value_text t raw h,
      ))
    ∙ all_joined

decimal-IsSolid : (n : ℕ) → IsSolid (decimal n)
decimal-IsSolid n = plain-IsSolid 10 (decimal n) (decimal-IsPlain n)

-- A text of one word.
abbrev pub IsWord : List ℕ → Type 0
IsWord s = IsSolid s × (0 < length s)

decimal-IsWord : (n : ℕ) → IsWord (decimal n)
decimal-IsWord n = (decimal-IsSolid n, number_digits-ne-nil 10 63 n [])

value_text-IsWord : (t : SdoType) (raw : ℕ) → IsWord (value_text t raw)
value_text-IsWord t raw =
    if_holds IsWord (is_signed t)
      (λ _.
        if_holds IsWord (ltb (sign_extend raw t.size) (2 ^ 31))
          (λ _. decimal-IsWord (sign_extend raw t.size))
          ((omega arith, decimal-IsSolid (2 ^ 32 - sign_extend raw t.size)), omega arith))
      (decimal-IsWord raw)

format_value_whole :
    (t : SdoType) (bytes : List ℕ)
    → length bytes ≡ t.size
    → format_value (some t) bytes ≡ write 80 [] (value_pieces t (le_value bytes))
unfolding format_value
format_value_whole t bytes l =
    ap (λ (s : List ℕ). write 80 [] (value_pieces t (le_value s)))
      (take_all (min t.size (length bytes)) bytes (omega arith))

-- The two words of a value that is printed.
pub format_value-words :
    (t : SdoType) (bytes : List ℕ)
    → t.size ≤ 4
    → length bytes ≡ t.size
    → le_value bytes < 2 ^ 32
    → split_whitespace (format_value (some t) bytes)
      ≡ (codes "0x"
          ++ wide_hex (t.size * 2 - length (hexadecimal (le_value bytes))) (le_value bytes))
        ∷ value_text t (le_value bytes)
        ∷ []
format_value-words t bytes small l h =
    let raw : ℕ = le_value bytes in
    let value : IsWord (value_text t raw) = value_text-IsWord t raw in
    let zeros : ℕ = t.size * 2 - length (hexadecimal raw) in
    ap split_whitespace (format_value_whole t bytes l ∙ pieces_text t raw small h)
    ∙ split_whitespace-two (codes "0x" ++ wide_hex zeros raw) (value_text t raw)
        (prefixed-IsSolid (wide_hex zeros raw) (wide_hex-IsPlain zeros raw)) value.0 (omega arith)
        value.1

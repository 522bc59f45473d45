-- ===== src/Modbus/Responses.antt =====
-- The Modbus responses: their headers, and the register values that they carry.
use rtic_ecmaster.Base.{
  ℕ, zero, suc, ◌+◌, ◌*◌, ◌/◌, ◌%◌, ◌≤◌, ◌<◌, ◌≡◌, refl, sym, ap, ◌∙◌, arith, false, ◌||◌, not,
  none, some, List, [], ◌∷◌, ◌++◌, append_assoc, append-nil, ltb, ◌==◌, length, length-append,
  byte_at, be16, read_be16, set_bit, u8, u16, All, byte_at-lt, le→leb, Bool-cases, ◌⊎◌, inl, inr,
}
use rtic_ecmaster.Modbus.{
  ModbusSlave, max_frame, get_hreg, header, exception, push_u8, push_registers, read_holding,
  write_single, write_multiple, process_frame,
}

-- The big-endian values of `n` registers from an address on.
pub values : ModbusSlave → ℕ → ℕ → List ℕ
values rs zero address = []
values rs (suc n) address = be16 (get_hreg rs address) ++ values rs n (u16 (address + 1))

length-values : (rs : ModbusSlave) (n a : ℕ) → length (values rs n a) ≡ 2 * n
unfolding values
length-values rs zero a = refl
length-values rs (suc n) a = omega (arith, length-values rs n (u16 (a + 1)))

push_registers-values :
    (rs : ModbusSlave) (n a : ℕ) (response : List ℕ)
    → length response + 2 * n ≤ max_frame
    → push_registers rs n a response ≡ response ++ values rs n a
unfolding push_registers values
push_registers-values rs zero a response h = sym (append-nil response)
push_registers-values rs (suc n) a response h =
    rw (le→leb (length response + 2) max_frame (omega arith)) (
      push_registers-values rs n (u16 (a + 1)) (response ++ be16 (get_hreg rs a))
        (omega (arith, length-append response (be16 (get_hreg rs a))))
      ∙ append_assoc response (be16 (get_hreg rs a)) (values rs n (u16 (a + 1))))

read_head :
    (q t u : ℕ)
    → q ≤ 125
    → push_u8 (push_u8 (header t u (u16 (3 + q * 2))) 3) (u8 (q * 2))
      ≡ be16 t ++ (0 ∷ 0 ∷ 0 ∷ (3 + 2 * q) ∷ u ∷ 3 ∷ (2 * q) ∷ [])
read_head q t u h =
    let high : u16 (3 + q * 2) / 256 % 256 ≡ 0 = omega arith in
    let low : u16 (3 + q * 2) % 256 ≡ 3 + 2 * q = omega arith in
    let count : u8 (q * 2) ≡ 2 * q = omega arith in rw (high, low, count) refl

-- A read of registers that is well formed and fits a frame is answered by the header, the byte
-- count, and the values of exactly the registers asked for, in order.
pub read_holding-values :
    (rs : ModbusSlave) (frame : List ℕ) (t u : ℕ)
    → 12 ≤ length frame
    → 0 < read_be16 frame 10
    → read_be16 frame 10 ≤ 125
    → read_holding rs frame t u
      ≡ be16 t
        ++ (0
            ∷ 0
            ∷ 0
            ∷ (3 + 2 * read_be16 frame 10)
            ∷ u
            ∷ 3
            ∷ (2 * read_be16 frame 10)
            ∷ values rs (read_be16 frame 10) (read_be16 frame 8))
unfolding read_holding
read_holding-values rs frame t u h pos small =
    let q = read_be16 frame 10 in
    let short : ltb (length frame) 12 ≡ false = ground arith in
    let refused : ((q == 0) || ltb max_frame (q * 2 + 9)) ≡ false = ground arith in
    rw (short, refused)
      (ap (push_registers rs q (read_be16 frame 8)) (read_head q t u small)
        ∙ push_registers-values rs q (read_be16 frame 8)
            (be16 t ++ (0 ∷ 0 ∷ 0 ∷ (3 + 2 * q) ∷ u ∷ 3 ∷ (2 * q) ∷ [])) (omega arith))

-- The header of a response: the transaction and unit of the request, and the length of the rest.
pub record Answers (frame response : List ℕ) : Type 0 where
  pub transaction : read_be16 response 0 ≡ read_be16 frame 0
  pub protocol : read_be16 response 2 ≡ 0
  pub unit : byte_at response 6 ≡ byte_at frame 6
  pub sized : 6 + read_be16 response 4 ≡ length response
  pub fits : length response ≤ max_frame

response-Answers :
    (frame body response : List ℕ) (n : ℕ)
    → All (λ b. b < 256) frame
    → n ≡ length body + 1
    → n ≤ 254
    → response ≡ be16 (read_be16 frame 0) ++ (0 ∷ 0 ∷ (be16 n ++ (byte_at frame 6 ∷ body)))
    → Answers frame response
response-Answers frame body response n bytes e small shape = record {
  transaction = rw shape (omega (arith, byte_at-lt frame 0 bytes, byte_at-lt frame 1 bytes));
  protocol = rw shape refl;
  unit = rw shape refl;
  sized = rw shape (omega arith);
  fits = rw shape (omega arith);
}

exception-Answers :
    (frame : List ℕ) (function_code code : ℕ)
    → All (λ b. b < 256) frame
    → Answers frame (exception (read_be16 frame 0) (byte_at frame 6) function_code code)
exception-Answers frame function_code code bytes =
    response-Answers frame (set_bit function_code 7 ∷ code ∷ [])
      (exception (read_be16 frame 0) (byte_at frame 6) function_code code) 3 bytes refl
      (omega arith) refl

read-Answers :
    (rs : ModbusSlave) (frame : List ℕ) (q : ℕ)
    → All (λ b. b < 256) frame
    → q ≤ 125
    → Answers frame (
        push_registers rs q (read_be16 frame 8) (
          push_u8
            (push_u8 (header (read_be16 frame 0) (byte_at frame 6) (u16 (3 + q * 2))) 3)
            (u8 (q * 2))))
read-Answers rs frame q bytes small =
    let from = read_be16 frame 8 in
    let head =
      be16 (read_be16 frame 0) ++ (0 ∷ 0 ∷ 0 ∷ (3 + 2 * q) ∷ byte_at frame 6 ∷ 3 ∷ (2 * q) ∷ []) in
    let high : (3 + 2 * q) / 256 % 256 ≡ 0 = omega arith in
    let low : (3 + 2 * q) % 256 ≡ 3 + 2 * q = omega arith in
    response-Answers frame (3 ∷ (2 * q) ∷ values rs q from) _ (3 + 2 * q) bytes
      (omega (arith, length-values rs q from)) (omega arith)
      (ap (push_registers rs q from) (read_head q (read_be16 frame 0) (byte_at frame 6) small)
        ∙ push_registers-values rs q from head (omega arith)
        ∙ rw (high, low) refl)

read_holding-Answers :
    (rs : ModbusSlave) (frame : List ℕ)
    → All (λ b. b < 256) frame
    → Answers frame (read_holding rs frame (read_be16 frame 0) (byte_at frame 6))
unfolding read_holding
read_holding-Answers rs frame bytes =
    let q = read_be16 frame 10 in
    let head =
      push_u8 (push_u8 (header (read_be16 frame 0) (byte_at frame 6) (u16 (3 + q * 2))) 3)
        (u8 (q * 2)) in
    elim (Bool-cases (ltb (length frame) 12)) [
      | inl e ↦ rw (e, read_holding) (exception-Answers frame 3 3 bytes)
      | inr e ↦ elim (Bool-cases ((q == 0) || ltb max_frame (q * 2 + 9))) [
        | inl e' ↦ rw (e, read_holding, e') (exception-Answers frame 3 3 bytes)
        | inr e' ↦ rw (e, read_holding, e') (read-Answers rs frame q bytes (ground arith))
      ]
    ]

write_single-Answers :
    (rs : ModbusSlave) (frame : List ℕ)
    → All (λ b. b < 256) frame
    → Answers frame (write_single rs frame (read_be16 frame 0) (byte_at frame 6)).1
unfolding write_single
write_single-Answers rs frame bytes = elim (Bool-cases (ltb (length frame) 12)) [
  | inl e ↦ rw (e, write_single) (exception-Answers frame 6 3 bytes)
  | inr e ↦
      rw (e, write_single)
        (response-Answers frame (6 ∷ (be16 (read_be16 frame 8) ++ be16 (read_be16 frame 10))) _ 6
          bytes refl (omega arith) refl)
]

write_multiple-Answers :
    (rs : ModbusSlave) (frame : List ℕ)
    → All (λ b. b < 256) frame
    → Answers frame (write_multiple rs frame (read_be16 frame 0) (byte_at frame 6)).1
unfolding write_multiple
write_multiple-Answers rs frame bytes =
    let q = read_be16 frame 10 in
    let count = byte_at frame 12 in
    elim (Bool-cases (ltb (length frame) 13)) [
      | inl e ↦ rw (e, write_multiple) (exception-Answers frame 0x10 3 bytes)
      | inr e ↦
          elim (Bool-cases
            ((q == 0) || (not (count == q * 2)) || ltb (length frame) (13 + count))) [
              | inl e' ↦ rw (e, write_multiple, e') (exception-Answers frame 0x10 3 bytes)
              | inr e' ↦
                  rw (e, write_multiple, e')
                    (response-Answers frame (0x10 ∷ (be16 (read_be16 frame 8) ++ be16 q)) _ 6 bytes
                      refl (omega arith) refl)
            ]
    ]

-- Every response to a request of bytes carries the request's transaction and unit, protocol 0 and
-- the true length of what follows, and fits the response buffer; a request is answered exactly if
-- it has a header and a function code.
pub process_frame-Answers :
    (rs : ModbusSlave) (frame : List ℕ)
    → All (λ b. b < 256) frame
    → ((length frame < 8) × ((process_frame rs frame).1 ≡ none))
      ⊎ ((8 ≤ length frame)
          × ((response : List ℕ) × ((process_frame rs frame).1 ≡ some response)
              × Answers frame response))
unfolding process_frame
process_frame-Answers rs frame bytes =
    let function_code = byte_at frame 7 in
    elim (Bool-cases (ltb (length frame) 8)) [
      | inl e ↦ rw (e, process_frame) (inl (ground arith, refl))
      | inr e ↦ elim (Bool-cases (function_code == 3)) [
        | inl e3 ↦
            rw (e, process_frame, e3)
              (inr (ground arith, (_, refl, read_holding-Answers rs frame bytes)))
        | inr e3 ↦ elim (Bool-cases (function_code == 6)) [
          | inl e6 ↦
              rw (e, process_frame, e3, e6)
                (inr (ground arith, (_, refl, write_single-Answers rs frame bytes)))
          | inr e6 ↦ elim (Bool-cases (function_code == 0x10)) [
            | inl e16 ↦
                rw (e, process_frame, e3, e6, e16)
                  (inr (ground arith, (_, refl, write_multiple-Answers rs frame bytes)))
            | inr e16 ↦
                rw (e, process_frame, e3, e6, e16)
                  (inr (ground arith, (_, refl, exception-Answers frame function_code 1 bytes)))
          ]
        ]
      ]
    ]

-- ===== src/Console/Answers.antt =====
-- What goes back to the host.
use rtic_ecmaster.Base.{
  ℕ, zero, suc, ◌+◌, ◌-◌, ◌*◌, ◌≤◌, ◌≡◌, refl, sym, ◌∙◌, ap, arith, false, inl, inr, Bool-cases,
  List, [], ◌∷◌, ◌++◌, append_assoc, append-nil, ltb, ltb→le, le→leb, le→ltb, length, length-append,
  length-take, length-drop, take, take-append-drop, drop, min, All,
}
use rtic_ecmaster.Console.Output.{
  EcatOut, out_cap, resp_lines, extend, crlf, extend_lines, set_lines, remaining, pending, advance,
  Write, accepted, would_block, failed, max_packet, written, send_packet, send_packets,
}

-- The text of an answer: its lines, each with its end.
abbrev pub text : List (List ℕ) → List ℕ
text [] = []
text (line ∷ lines) = (line ++ crlf) ++ text lines

extend_fits :
    (buf bytes : List ℕ) → length buf + length bytes ≤ out_cap → extend buf bytes ≡ buf ++ bytes
extend_fits buf bytes h = rw (le→leb (length buf + length bytes) out_cap h)

extend_lines-text :
    (buf : List ℕ) (lines : List (List ℕ))
    → length buf + 98 * length lines ≤ out_cap
    → All (λ (l : List ℕ). length l ≤ 96) lines
    → extend_lines buf lines ≡ buf ++ text lines
unfolding extend_lines
extend_lines-text buf [] h p = sym (append-nil buf)
extend_lines-text buf (line ∷ lines) h p =
    rw
      (
        extend_fits buf line (omega (arith, p.0)),
        extend_fits (buf ++ line) crlf (omega (arith, p.0, length-append buf line)),
      )
      (extend_lines-text ((buf ++ line) ++ crlf) lines
          (omega (arith, p.0, length-append (buf ++ line) crlf, length-append buf line)) p.1
        ∙ ap (λ (s : List ℕ). s ++ text lines) (append_assoc buf line crlf)
        ∙ append_assoc buf (line ++ crlf) (text lines))

drop_add : (m n : ℕ) (xs : List ℕ) → drop (m + n) xs ≡ drop n (drop m xs)
drop_add zero n xs = let e : zero + n ≡ n = omega arith in rw e
drop_add (suc m) zero [] = let e : suc m + zero ≡ suc m = omega arith in rw e
drop_add (suc m) (suc n) [] = let e : suc m + suc n ≡ suc (m + suc n) = omega arith in rw e
drop_add (suc m) n (x ∷ xs) =
    let e : suc m + n ≡ suc (m + n) = omega arith in rw e (drop_add m n xs)

-- The cursor never passes the end.
abbrev IsValid : EcatOut → Type 0
IsValid o = o.cursor ≤ length o.buf

abbrev pub Sends : Write → Type 0
Sends accepted = Unit {0}
Sends would_block = Unit {0}
Sends failed = ⊥

abbrev pub room : Write → ℕ
room accepted = max_packet
room would_block = 0
room failed = 0

remaining-valid : (o : EcatOut) → IsValid o → remaining o ≡ drop o.cursor o.buf
unfolding remaining
remaining-valid o v = let e : min o.cursor (length o.buf) ≡ o.cursor = omega arith in rw e

length-remaining : (o : EcatOut) → length (remaining o) ≡ length o.buf - min o.cursor (length o.buf)
unfolding remaining
length-remaining o = length-drop (min o.cursor (length o.buf)) o.buf

advance-IsValid : (o : EcatOut) (n : ℕ) → IsValid (advance o n)
unfolding advance
advance-IsValid o n = omega arith

remaining-advance :
    (o : EcatOut) (n : ℕ)
    → IsValid o
    → n ≤ length (remaining o)
    → remaining (advance o n) ≡ drop n (remaining o)
unfolding advance
remaining-advance o n v h =
    let e : min (o.cursor + n) (length o.buf) ≡ o.cursor + n = omega (arith, length-remaining o) in
    remaining-valid (record o { cursor = min (o.cursor + n) (length o.buf) }) (omega arith)
    ∙ rw (remaining-valid o v) (rw e (drop_add o.cursor n o.buf))

-- One interrupt hands the next bytes over, a packet at most, or none.
abbrev Keeps : ℕ → EcatOut → EcatOut × List ℕ → Type 0
Keeps n o r =
    IsValid r.0
    × (r.1 ++ remaining r.0 ≡ remaining o)
    × (length (remaining r.0) ≡ length (remaining o) - n)

written-Keeps :
    (w : Write) (o : EcatOut)
    → IsValid o
    → Sends w
    → let rest = remaining o in
      Keeps (room w) o (written w o (take (min (length rest) max_packet) rest))
written-Keeps accepted o v h =
    let rest : List ℕ = remaining o in
    let n : ℕ = min (length rest) max_packet in
    let size : length (take n rest) ≡ n = length-take n rest ∙ omega arith in
    rw size (
      advance-IsValid o n,
      rw (remaining-advance o n v (omega arith)) (take-append-drop n rest),
      rw (remaining-advance o n v (omega arith)) (omega (arith, length-drop n rest)),
    )
written-Keeps would_block o v h = (v, refl, omega arith)
written-Keeps failed o v h = absurd h

send_packet-Keeps :
    (w : Write) (o : EcatOut) → IsValid o → Sends w → Keeps (room w) o (send_packet w o)
unfolding send_packet pending
send_packet-Keeps w o v h = elim (Bool-cases (ltb o.cursor (length o.buf))) [
  | inl more ↦ rw more (written-Keeps w o v h)
  | inr done ↦
      rw done (v, refl, omega (arith, length-remaining o, ltb→le o.cursor (length o.buf) done))
]

-- The packets that were accepted.
abbrev pub rooms : List Write → ℕ
rooms [] = 0
rooms (w ∷ ws) = room w + rooms ws

send_packets-Keeps :
    (ws : List Write) (o : EcatOut)
    → IsValid o
    → All Sends ws
    → Keeps (rooms ws) o (send_packets ws o)
unfolding send_packets
send_packets-Keeps [] o v h = (v, refl, omega arith)
send_packets-Keeps (w ∷ ws) o v h =
    let first = send_packet-Keeps w o v h.0 in
    let o' : EcatOut = (send_packet w o).0 in
    let later = send_packets-Keeps ws o' first.0 h.1 in
    (
      later.0,
      append_assoc (send_packet w o).1 (send_packets ws o').1 (remaining (send_packets ws o').0)
          ∙ ap (λ (s : List ℕ). (send_packet w o).1 ++ s) later.1
          ∙ first.1,
      omega (arith, first.2, later.2),
    )

no_rest : (xs : List ℕ) → length xs ≡ 0 → xs ≡ []
no_rest [] h = refl
no_rest (x ∷ xs) h = absurd (omega arith)

remaining-set_lines :
    (o : EcatOut) (lines : List (List ℕ))
    → length lines ≤ resp_lines
    → All (λ (l : List ℕ). length l ≤ 96) lines
    → remaining (set_lines o lines) ≡ text lines
unfolding set_lines
remaining-set_lines o lines h p =
    remaining-valid (record { buf = extend_lines [] lines; cursor = 0 }) (omega arith)
    ∙ extend_lines-text [] lines (omega arith) p

idle : (o : EcatOut) → length (remaining o) ≡ 0 → pending o ≡ false
unfolding pending
idle o h = le→ltb o.cursor (length o.buf) (omega (arith, length-remaining o))

set_lines-IsValid : (o : EcatOut) (lines : List (List ℕ)) → IsValid (set_lines o lines)
unfolding set_lines
set_lines-IsValid o lines = omega arith

-- An answer of at most 40 lines of at most 96 characters reaches the host whole: interrupts in which
-- the endpoint takes the packet or is busy, and which take enough packets of 512 bytes, send exactly
-- its lines in order, each with its end, and then nothing is pending.
pub send_packets-set_lines :
    (o : EcatOut) (lines : List (List ℕ)) (ws : List Write)
    → length lines ≤ resp_lines
    → All (λ (l : List ℕ). length l ≤ 96) lines
    → All Sends ws
    → length (text lines) ≤ rooms ws
    → let r = send_packets ws (set_lines o lines) in (r.1 ≡ text lines) × (pending r.0 ≡ false)
send_packets-set_lines o lines ws few short sends enough =
    let start : EcatOut = set_lines o lines in
    let whole = remaining-set_lines o lines few short in
    let kept = send_packets-Keeps ws start (set_lines-IsValid o lines) sends in
    let ended : EcatOut = (send_packets ws start).0 in
    let left : length (remaining ended) ≡ 0 = omega (arith, kept.2, ap length whole) in
    (
      sym (append-nil (send_packets ws start).1)
          ∙ ap (λ (s : List ℕ). (send_packets ws start).1 ++ s)
              (sym (no_rest (remaining ended) left))
          ∙ kept.1
          ∙ whole,
      idle ended left,
    )

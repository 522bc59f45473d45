-- ===== src/W5500/Checksum.antt =====
-- The checksum of an echo reply is one that the receiver accepts.
use native.Mathlib.Nat.{le_refl}
use rtic_ecmaster.Base.{
  ℕ, zero, suc, ◌+◌, ◌-◌, ◌*◌, ◌/◌, ◌%◌, ◌≤◌, ◌<◌, ◌≡◌, ◌∙◌, sym, refl, arith, inl, inr, some,
  Bool-cases, List, [], ◌∷◌, ◌++◌, ◌==◌, length, drop, be16, byte_at,
}
use rtic_ecmaster.W5500.Packets.{word_sum, fold_carry, internet_checksum, make_icmp_echo_reply}

-- Folding keeps the sum modulo 65535, and does not make it 0.
record Folds (sum folded : ℕ) : Type 0 where
  carries : ℕ
  kept : sum ≡ folded + 65535 * carries
  small : folded < 65536
  positive : 0 < sum → 0 < folded

fold_carry-Folds : (rounds sum : ℕ) → sum ≤ rounds → Folds sum (fold_carry rounds sum)
unfolding fold_carry
fold_carry-Folds zero sum h = record {
  carries = 0;
  kept = omega arith;
  small = omega arith;
  positive = λ p. p;
}
fold_carry-Folds (suc rounds) sum h = elim (Bool-cases (sum / 65536 == 0)) [
  | inl fits ↦
      rw fits (record { carries = 0; kept = omega arith; small = ground arith; positive = λ p. p })
  | inr over ↦
      let carried : 0 < sum / 65536 = ground arith in
      let later = fold_carry-Folds rounds (sum % 65536 + sum / 65536) (omega arith) in
      rw over (record {
        carries = later.carries + sum / 65536;
        kept = omega (arith, later.kept);
        small = later.small;
        positive = λ p. later.positive (omega arith);
      })
]

-- A sum with its complement in the place of the zero folds to all ones.
complement :
    (s f c g : ℕ) → Folds s f → c ≡ 65535 - f % 65536 → Folds (s + c) g → 65535 - g % 65536 ≡ 0
complement s f c g first e second =
    let some_sum : 0 < g = second.positive (omega (arith, first.kept, e)) in
    omega (arith, first.kept, first.small, second.kept, second.small)

checksum-complement :
    (s : ℕ)
    → let c = 65535 - fold_carry s s % 65536 in 65535 - fold_carry (s + c) (s + c) % 65536 ≡ 0
checksum-complement s =
    let c : ℕ = 65535 - fold_carry s s % 65536 in
    complement s (fold_carry s s) c (fold_carry (s + c) (s + c)) (fold_carry-Folds s s (le_refl s))
      refl (fold_carry-Folds (s + c) (s + c) (le_refl (s + c)))

-- The checksum of the reply stands for two bytes of its own sum.
reply_sum :
    (code : ℕ) (rest : List ℕ)
    → internet_checksum (0 ∷ code ∷ (be16 (internet_checksum (0 ∷ code ∷ 0 ∷ 0 ∷ rest)) ++ rest))
      ≡ 0
unfolding internet_checksum
reply_sum code rest =
    let s : ℕ = 256 * 0 + code + (256 * 0 + 0 + word_sum rest) in
    let c : ℕ = 65535 - fold_carry s s % 65536 in
    let same : 256 * 0 + code + (256 * (c / 256 % 256) + c % 256 + word_sum rest) ≡ s + c =
      omega arith in
    rw same (checksum-complement s)

-- What a receiver adds up (RFC 1071): the bytes at even places weigh 256, those at odd places 1, an
-- odd last byte thus being the high byte of its word.
pub weighed : ℕ → List ℕ → ℕ
weighed weight [] = 0
weighed weight (b ∷ bytes) = weight * b + weighed (257 - weight) bytes

-- It accepts a packet whose sum is 0 in ones' complement: a positive multiple of 65535.
abbrev pub Accepted : List ℕ → Type 0
Accepted packet = (k : ℕ) × (weighed 256 packet ≡ 65535 * (k + 1))

word_sum-weighed : (bytes : List ℕ) → word_sum bytes ≡ weighed 256 bytes
unfolding word_sum weighed
word_sum-weighed [] = refl
word_sum-weighed (a ∷ []) = omega arith
word_sum-weighed (a ∷ b ∷ bytes) = omega (arith, word_sum-weighed bytes)

sum-multiple : (s g : ℕ) → Folds s g → 65535 - g % 65536 ≡ 0 → (k : ℕ) × (s ≡ 65535 * (k + 1))
sum-multiple s g f e = (f.carries, omega (arith, f.kept, f.small))

checksum-Accepted : (packet : List ℕ) → internet_checksum packet ≡ 0 → Accepted packet
unfolding internet_checksum
checksum-Accepted packet e =
    let s = word_sum packet in
    let (k, same) = sum-multiple s (fold_carry s s) (fold_carry-Folds s s (le_refl s)) e in
    (k, sym (word_sum-weighed packet) ∙ same)

-- Every echo request gets a reply: of its length, with its bytes behind the checksum and the type of
-- a reply, and with a checksum that the receiver accepts, which adds up the words of the reply, an
-- odd last byte padded with 0.
pub make_icmp_echo_reply-Accepted :
    (packet : List ℕ)
    → 8 ≤ length packet
    → byte_at packet 0 ≡ 8
    → byte_at packet 1 ≡ 0
    → (reply : List ℕ) × (make_icmp_echo_reply packet ≡ some reply)
      × Accepted reply
      × (byte_at reply 0 ≡ 0)
      × (length reply ≡ length packet)
      × (drop 4 reply ≡ drop 4 packet)
unfolding make_icmp_echo_reply
make_icmp_echo_reply-Accepted [] l k z = absurd (omega arith)
make_icmp_echo_reply-Accepted (a ∷ []) l k z = absurd (omega arith)
make_icmp_echo_reply-Accepted (a ∷ b ∷ []) l k z = absurd (omega arith)
make_icmp_echo_reply-Accepted (a ∷ b ∷ c ∷ []) l k z = absurd (omega arith)
make_icmp_echo_reply-Accepted (kind ∷ code ∷ c0 ∷ c1 ∷ rest) l k z = (
  0 ∷ code ∷ (be16 (internet_checksum (0 ∷ code ∷ 0 ∷ 0 ∷ rest)) ++ rest),
  ground arith,
  checksum-Accepted (0 ∷ code ∷ (be16 (internet_checksum (0 ∷ code ∷ 0 ∷ 0 ∷ rest)) ++ rest))
      (reply_sum code rest),
  refl,
  omega arith,
  refl,
)

-- ===== src/W5500/Packets.antt =====
-- src/net/w5500_spi.rs: the ICMP echo reply and its checksum.
use rtic_ecmaster.Base.{
  ℕ, zero, suc, ◌+◌, ◌-◌, ◌*◌, ◌/◌, ◌%◌, not, ◌||◌, Option, none, some, List, [], ◌∷◌, ◌++◌, ltb,
  ◌==◌, if◌then◌else◌, length, be16,
}

-- The sum of the words, a last byte alone counting as the high one.
unfoldable pub word_sum : List ℕ → ℕ
word_sum [] = 0
word_sum (a ∷ []) = 256 * a
word_sum (a ∷ b ∷ bytes) = 256 * a + b + word_sum bytes

-- `while sum >> 16 != 0`; a 32-bit sum takes two rounds at most, and the sum itself bounds them.
unfoldable pub fold_carry : ℕ → ℕ → ℕ
fold_carry zero sum = sum
fold_carry (suc rounds) sum =
    let again = fold_carry rounds (sum % 65536 + sum / 65536) in
    if sum / 65536 == 0 then sum else again

-- `internet_checksum`, of at most 65536 words, so that the sum fits 32 bits.
unfoldable pub internet_checksum : List ℕ → ℕ
unfolding word_sum fold_carry
internet_checksum bytes = 65535 - fold_carry (word_sum bytes) (word_sum bytes) % 65536

-- `make_icmp_echo_reply`: none for what is no echo request.
unfoldable pub make_icmp_echo_reply : List ℕ → Option (List ℕ)
make_icmp_echo_reply (kind ∷ code ∷ c0 ∷ c1 ∷ rest) =
    if ltb (length rest) 4 || not (kind == 8) || not (code == 0)
    then none
    else some (0 ∷ code ∷ (be16 (internet_checksum (0 ∷ code ∷ 0 ∷ 0 ∷ rest)) ++ rest))
make_icmp_echo_reply packet = none

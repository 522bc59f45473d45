-- ===== src/Examples/Chips.antt =====
-- The W5500: a chip that stores what it is sent, and an echo request.
use rtic_ecmaster.Base.{
  ℕ, ◌+◌, ◌*◌, ◌/◌, ◌%◌, ◌<◌, ◌≡◌, refl, arith, true, Option, some, List, [], ◌∷◌, length, drop,
  replicate, byte_at, ◌==◌, if◌then◌else◌, u8,
}
use rtic_ecmaster.W5500.{Spi, buffer_size, spi_frame, write_buffer}
use rtic_ecmaster.W5500.Packets.{internet_checksum, make_icmp_echo_reply}
use rtic_ecmaster.W5500.Checksum.{Accepted, make_icmp_echo_reply-Accepted}
use rtic_ecmaster.W5500.Placed.{placed, Chip, Holds, write_buffer-Holds}

-- The blocks with their bytes.
abbrev Memory : Type 0
Memory = ℕ → ℕ → ℕ

abbrev stored : Memory → List ℕ → Memory × Option (List ℕ)
stored m (hi ∷ lo ∷ control ∷ values) = (
  λ b a. (if b == control / 8 then placed (hi * 256 + lo) values (m (control / 8)) a else m b a),
  some (0 ∷ 0 ∷ 0 ∷ values),
)
stored m frame = (m, some frame)

abbrev bus : Spi Memory
bus = record { transfer = stored }

stored-stores :
    (m : Memory) (block address : ℕ) (values : List ℕ) (b a : ℕ)
    → block < 32
    → address < buffer_size
    → a < buffer_size
    → (stored m (spi_frame block true address values)).0 b a
      ≡ (if b == block then placed address values (m block) a else m b a)
stored-stores m block address values b a few near l =
    let number : (u8 (block * 8) + 4) / 8 ≡ block = omega arith in
    let from : address / 256 % 256 * 256 + address % 256 ≡ address = omega arith in
    rw (number, from)

abbrev chip : Chip bus
chip = record {
  peek = λ m. m;
  stores = stored-stores;
  accepts = λ m block address values. (0 ∷ 0 ∷ 0 ∷ values, refl);
}

abbrev blank : Memory
blank b a = 0

-- Values of more than one chunk, written across the end of the buffer.
abbrev long_values : List ℕ
long_values = replicate 40 7

write_buffer-Holds_example :
    Holds bus chip 2 2046 long_values blank (write_buffer bus 2 2046 long_values blank)
write_buffer-Holds_example = write_buffer-Holds bus chip 2 2046 long_values blank (omega arith)

abbrev request : List ℕ
request = 8 ∷ 0 ∷ 0xF7 ∷ 0xFD ∷ 0 ∷ 1 ∷ 0 ∷ 1 ∷ []

make_icmp_echo_reply-Accepted_example :
    (reply : List ℕ) × (make_icmp_echo_reply request ≡ some reply)
    × Accepted reply
    × (byte_at reply 0 ≡ 0)
    × (length reply ≡ length request)
    × (drop 4 reply ≡ drop 4 request)
make_icmp_echo_reply-Accepted_example =
    make_icmp_echo_reply-Accepted request (omega arith) refl refl

echo_reply : make_icmp_echo_reply request ≡ some (0 ∷ 0 ∷ 0xFF ∷ 0xFD ∷ 0 ∷ 1 ∷ 0 ∷ 1 ∷ [])
unfolding make_icmp_echo_reply internet_checksum
echo_reply = refl

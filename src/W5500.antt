-- ===== src/W5500.antt =====
-- src/net/w5500_spi.rs: the W5500 network chip behind an SPI bus. The bus is an interface over its
-- own state; an error of the bus ends a call.
pub mod Packets
pub mod Sockets
pub mod Placed
pub mod Checksum
use rtic_ecmaster.Base.{
  ℕ, zero, suc, ◌+◌, ◌-◌, ◌*◌, ◌/◌, ◌%◌, Bool, true, false, Option, none, some, List, [], ◌∷◌, ◌++◌,
  ltb, leb, ◌==◌, if◌then◌else◌, length, take, drop, replicate, byte_at, u8, u16, be16, read_be16,
  min,
}

-- `Transfer<u8>`: the bytes that come back for the bytes that are sent, `none` for an error.
pub record Spi (S : Type 0) : Type 0 where
  pub transfer : S → List ℕ → S × Option (List ℕ)

pub data Answer (A : Type 0) : Type 0 where
  done : A → Answer A
  failed panicked : Answer A

abbrev pub Io : Type 0 → Type 0 → Type 0
Io S A = S → S × Answer A

unfoldable pub next : {S A B : Type 0} → (A → Io S B) → S × Answer A → S × Answer B
next f (s, done a) = f a s
next f (s, failed) = (s, failed)
next f (s, panicked) = (s, panicked)

infixl 5 ◌>>=◌ ◌>>◌
abbrev pub ◌>>=◌ : {S A B : Type 0} → Io S A → (A → Io S B) → Io S B
◌>>=◌ m f s = next f (m s)

abbrev pub ◌>>◌ : {S B : Type 0} → Io S (Unit {0}) → Io S B → Io S B
m >> k = m >>= λ _. k

abbrev pub give : {S A : Type 0} → A → Io S A
give a s = (s, done a)

abbrev pub transfer_chunk : ℕ
transfer_chunk = 32

abbrev pub buffer_size : ℕ
buffer_size = 2048

-- `address_hi`, `address_lo` and `control` in front of the values of a frame.
abbrev pub spi_frame : ℕ → Bool → ℕ → List ℕ → List ℕ
spi_frame block writes address values =
    address / 256 % 256 ∷ address % 256 ∷ (u8 (block * 8) + (if writes then 4 else 0)) ∷ values

-- `pointer.wrapping_add(offset as u16) & SOCKET_BUFFER_MASK`
abbrev pub buffer_address : ℕ → ℕ → ℕ
buffer_address pointer offset = u16 (pointer + u16 offset) % buffer_size

abbrev pub replied : {S : Type 0} → S × Option (List ℕ) → S × Answer (List ℕ)
replied (s, some bytes) = (s, done (drop 3 bytes))
replied (s, none) = (s, failed)

module _ {S : Type 0} (spi : Spi S) where
  -- A frame of three bytes and at most 32 values; more would not fit the frame's buffer.
  unfoldable pub exchange : ℕ → Bool → ℕ → List ℕ → Io S (List ℕ)
  exchange block writes address values s =
      if leb (length values) transfer_chunk
      then replied (spi.transfer s (spi_frame block writes address values))
      else (s, panicked)

  -- `read_into`, into so many values; `write`
  unfoldable pub read_into : ℕ → ℕ → ℕ → Io S (List ℕ)
  read_into block address count = exchange block false address (replicate count 0)

  unfoldable pub write : ℕ → ℕ → List ℕ → Io S (Unit {0})
  write block address values = exchange block true address values >>= λ _. give tt

  -- `read_u8`, `read_socket_u16`, `write_socket_u8`, `write_socket_u16`
  abbrev pub read_u8 : ℕ → ℕ → Io S ℕ
  read_u8 block address = read_into block address 1 >>= λ bytes. give (byte_at bytes 0)

  abbrev pub read_u16 : ℕ → ℕ → Io S ℕ
  read_u16 block address = read_into block address 2 >>= λ bytes. give (read_be16 bytes 0)

  abbrev pub write_u8 : ℕ → ℕ → ℕ → Io S (Unit {0})
  write_u8 block address value = write block address (value ∷ [])

  abbrev pub write_u16 : ℕ → ℕ → ℕ → Io S (Unit {0})
  write_u16 block address value = write block address (be16 value)

  -- The loop of `write_buffer` from `offset` on, over the values that are left; as many rounds as
  -- there are values are enough.
  unfoldable pub write_chunks : ℕ → ℕ → ℕ → ℕ → List ℕ → Io S (Unit {0})
  write_chunks rounds block pointer offset [] = give tt
  write_chunks zero block pointer offset (v ∷ vs) = give tt
  write_chunks (suc rounds) block pointer offset (v ∷ vs) =
      write block (buffer_address pointer offset) (take transfer_chunk (v ∷ vs))
      >> write_chunks rounds block pointer (offset + transfer_chunk) (drop transfer_chunk (v ∷ vs))

  unfoldable pub write_buffer : ℕ → ℕ → List ℕ → Io S (Unit {0})
  write_buffer block pointer values = write_chunks (length values) block pointer 0 values

  -- The loop of `read_buffer`, with the number of bytes that are left.
  unfoldable pub read_chunks : ℕ → ℕ → ℕ → ℕ → ℕ → Io S (List ℕ)
  read_chunks zero block pointer offset left = give []
  read_chunks (suc rounds) block pointer offset left =
      if left == 0
      then give []
      else (read_into block (buffer_address pointer offset) (min left transfer_chunk) >>= λ bytes.
          read_chunks rounds block pointer (offset + transfer_chunk) (left - transfer_chunk)
          >>= λ more. give (bytes ++ more))

  unfoldable pub read_buffer : ℕ → ℕ → ℕ → Io S (List ℕ)
  read_buffer block pointer count = read_chunks count block pointer 0 count

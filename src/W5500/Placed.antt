-- ===== src/W5500/Placed.antt =====
-- What `write_buffer` leaves in a buffer of the chip, against writing one byte at a time.
use mathlib.Core.Path.{subst}
use native.Mathlib.Nat.{le_refl}
use rtic_ecmaster.Base.{
  ℕ, zero, suc, ◌+◌, ◌%◌, ◌≤◌, ◌<◌, ◌≡◌, refl, sym, ◌∙◌, ap, arith, inl, inr, Bool-cases, true,
  Option, none, some, List, [], ◌∷◌, ◌++◌, le→leb, ◌==◌, if◌then◌else◌, length, length-take,
  length-drop, take, drop, take-append-drop,
}
use rtic_ecmaster.W5500.{
  Spi, Answer, replied, done, next, transfer_chunk, buffer_size, spi_frame, exchange, write,
  buffer_address, write_chunks, write_buffer,
}

-- The bytes of a buffer, by address, after one more byte, and after a run of bytes from an address
-- on: the reference. Addresses wrap at the end of the buffer.
abbrev pub put : (ℕ → ℕ) → ℕ → ℕ → ℕ → ℕ
put bytes address v a = if a == address % buffer_size then v else bytes a

abbrev pub placed : ℕ → List ℕ → (ℕ → ℕ) → ℕ → ℕ
placed address [] bytes = bytes
placed address (v ∷ vs) bytes = placed (address + 1) vs (put bytes address v)

-- A chip behind the bus: `peek` gives the bytes of its blocks. A frame that is accepted stores its
-- values from its address on, around the end of the buffer, and leaves the other blocks alone.
pub record Chip {S : Type 0} (spi : Spi S) : Type 0 where
  pub peek : S → ℕ → ℕ → ℕ
  pub stores :
      (s : S) (block address : ℕ) (values : List ℕ) (b a : ℕ)
      → block < 32
      → address < buffer_size
      → a < buffer_size
      → peek (spi.transfer s (spi_frame block true address values)).0 b a
        ≡ (if b == block then placed address values (peek s block) a else peek s b a)
  pub accepts :
      (s : S) (block address : ℕ) (values : List ℕ)
      → (bytes : List ℕ) × ((spi.transfer s (spi_frame block true address values)).1 ≡ some bytes)

placed_append :
    (address : ℕ) (xs ys : List ℕ) (bytes : ℕ → ℕ)
    → placed address (xs ++ ys) bytes ≡ placed (address + length xs) ys (placed address xs bytes)
placed_append address [] ys bytes = let e : address + 0 ≡ address = omega arith in rw e
placed_append address (x ∷ xs) ys bytes =
    let e : address + suc (length xs) ≡ address + 1 + length xs = omega arith in
    rw e (placed_append (address + 1) xs ys (put bytes address x))

-- Only the address in the buffer counts.
placed_wraps :
    (m n : ℕ) (vs : List ℕ) (f g : ℕ → ℕ) (a : ℕ)
    → (0 < length vs → m % buffer_size ≡ n % buffer_size)
    → ((x : ℕ) → x < buffer_size → f x ≡ g x)
    → a < buffer_size
    → placed m vs f a ≡ placed n vs g a
placed_wraps m n [] f g a e h l = h a l
placed_wraps m n (v ∷ vs) f g a e h l =
    let same : m % buffer_size ≡ n % buffer_size = e (omega arith) in
    placed_wraps (m + 1) (n + 1) vs (put f m v) (put g n v) a (λ _. omega arith)
      (λ x below. ground (arith, h x below)) l

if_same : (b : ℕ) (x y : ℕ) → (if b == b then x else y) ≡ x
if_same b x y = ground arith

happly : {f g : ℕ → ℕ} → f ≡ g → (a : ℕ) → f a ≡ g a
happly e a = ap (λ (f : ℕ → ℕ). f a) e

module _ {S : Type 0} (spi : Spi S) (chip : Chip spi) where
  replied-done :
      (r : S × Option (List ℕ)) (bytes : List ℕ)
      → r.1 ≡ some bytes
      → next (λ _ s. (s, done tt)) (replied r) ≡ (r.0, done tt)
  unfolding next
  replied-done (s, some got) bytes e = refl
  replied-done (s, none) bytes e = absurd cc

  write-stores :
      (block address : ℕ) (values : List ℕ) (s : S)
      → length values ≤ transfer_chunk
      → write spi block address values s
        ≡ ((spi.transfer s (spi_frame block true address values)).0, done tt)
  unfolding write exchange
  write-stores block address values s h =
      let (bytes, e) = chip.accepts s block address values in
      rw (le→leb (length values) transfer_chunk h)
        (replied-done (spi.transfer s (spi_frame block true address values)) bytes e)

  -- The bus after a frame that writes.
  abbrev after : ℕ → ℕ → List ℕ → S → S
  after block address values s = (spi.transfer s (spi_frame block true address values)).0

  -- The blocks after the values have been placed in one of them.
  abbrev pub Holds : ℕ → ℕ → List ℕ → S → S × Answer (Unit {0}) → Type 0
  Holds block address values s r =
      (r.1 ≡ done tt)
      × ((b a : ℕ)
          → a < buffer_size
          → chip.peek r.0 b a
            ≡ (if b == block then placed address values (chip.peek s block) a else chip.peek s b a))

  -- The run of a chunk and the run behind it, from the address of the chunk in the buffer.
  chunk_placed :
      (block pointer offset : ℕ) (values : List ℕ) (s : S) (a : ℕ)
      → block < 32
      → a < buffer_size
      → let s' = after block (buffer_address pointer offset) (take transfer_chunk values) s in
        placed
          (pointer + (offset + transfer_chunk))
          (drop transfer_chunk values)
          (chip.peek s' block)
          a
        ≡ placed (pointer + offset) values (chip.peek s block) a
  chunk_placed block pointer offset values s a few l =
      let chunk : List ℕ = take transfer_chunk values in
      let rest : List ℕ = drop transfer_chunk values in
      let address : ℕ = buffer_address pointer offset in
      let old : ℕ → ℕ = chip.peek s block in
      placed_wraps (pointer + (offset + transfer_chunk)) (address + length chunk) rest
        (chip.peek (after block address chunk s) block) (placed address chunk old) a
        (λ more.
          omega (arith, length-take transfer_chunk values, length-drop transfer_chunk values))
        (λ x below.
          chip.stores s block address chunk block x few (omega arith) below
          ∙ if_same block (placed address chunk old x) (chip.peek s block x))
        l
      ∙ sym (happly (placed_append address chunk rest old) a)
      ∙ ap (λ (vs : List ℕ). placed address vs old a) (take-append-drop transfer_chunk values)
      ∙ placed_wraps address (pointer + offset) values old old a (λ _. omega arith)
          (λ x below. refl) l

  chunk_stored :
      (block pointer offset : ℕ) (values : List ℕ) (s : S) (b a : ℕ)
      → block < 32
      → a < buffer_size
      → let s' = after block (buffer_address pointer offset) (take transfer_chunk values) s in
        (if b == block
          then placed
              (pointer + (offset + transfer_chunk))
              (drop transfer_chunk values)
              (chip.peek s' block)
              a
          else chip.peek s' b a)
        ≡ (if b == block
            then placed (pointer + offset) values (chip.peek s block) a
            else chip.peek s b a)
  chunk_stored block pointer offset values s b a few l =
      let chunk : List ℕ = take transfer_chunk values in
      let address : ℕ = buffer_address pointer offset in
      let kept = chip.stores s block address chunk b a few (omega arith) l in
      elim (Bool-cases (b == block)) [
        | inl here ↦ rw here (chunk_placed block pointer offset values s a few l)
        | inr other ↦ rw other (kept ∙ rw other)
      ]

  write_chunks-Holds :
      (rounds block pointer offset : ℕ) (values : List ℕ) (s : S)
      → block < 32
      → length values ≤ rounds
      → Holds block
          (pointer + offset)
          values
          s
          (write_chunks spi rounds block pointer offset values s)
  unfolding write_chunks next
  write_chunks-Holds rounds block pointer offset [] s few h = (refl, λ b a l. ground arith)
  write_chunks-Holds zero block pointer offset (v ∷ vs) s few h = absurd (omega arith)
  write_chunks-Holds (suc rounds) block pointer offset (v ∷ vs) s few h =
      let chunk : List ℕ = take transfer_chunk (v ∷ vs) in
      let rest : List ℕ = drop transfer_chunk (v ∷ vs) in
      let address : ℕ = buffer_address pointer offset in
      let s' : S = (spi.transfer s (spi_frame block true address chunk)).0 in
      let later =
        write_chunks-Holds rounds block pointer (offset + transfer_chunk) rest s' few
          (omega (arith, length-drop transfer_chunk (v ∷ vs))) in
      rw (write-stores block address chunk s (omega (arith, length-take transfer_chunk (v ∷ vs))))
        (later.0, λ b a l. later.1 b a l ∙ chunk_stored block pointer offset (v ∷ vs) s b a few l)

  -- Writing a buffer in chunks is writing its bytes one at a time: from the pointer on, around the end
  -- of the buffer, with every other byte of the chip as before; for a chip that accepts and stores
  -- what it is sent, and a block number of five bits.
  pub write_buffer-Holds :
      (block pointer : ℕ) (values : List ℕ) (s : S)
      → block < 32
      → Holds block pointer values s (write_buffer spi block pointer values s)
  unfolding write_buffer
  write_buffer-Holds block pointer values s few =
      let from : pointer + 0 ≡ pointer = omega arith in
      subst
        (λ p. Holds block p values s (write_chunks spi (length values) block pointer 0 values s))
        from
        (write_chunks-Holds (length values) block pointer 0 values s few (le_refl (length values)))

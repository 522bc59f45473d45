-- ===== src/Cia402/Commanded.antt =====
-- What the sequencer leaves in the image: the word of every drive.
use rtic_ecmaster.Base.{
  ℕ, ◌+◌, ◌*◌, ◌≤◌, ◌<◌, ◌≡◌, ◌≢◌, ◌⊎◌, inr, refl, sym, ◌∙◌, arith, Bool, List, [], ◌∷◌, length,
  byte_at, All, u16,
}
use rtic_ecmaster.Config.{u32}
use rtic_ecmaster.ProcessData.{read_value, write_value, read_bytes}
use rtic_ecmaster.ProcessData.RoundTrip.{width, read_value-write_value, write_value_frame}
use rtic_ecmaster.Cia402.{Binding, DriveCommand, next_controlword, cw_enable_op, step}

-- The controlword is an unsigned word inside an image of this length.
pub record WordPin (len : ℕ) (d : Binding) : Type 0 where
  pub unsigned : d.cw.hal_type ≡ u32
  pub sixteen : d.cw.bit_len ≡ 16
  pub fits : d.cw.byte_offset + 2 ≤ len

abbrev pub Apart : Binding → Binding → Type 0
Apart d e = (e.cw.byte_offset + 2 ≤ d.cw.byte_offset) ⊎ (d.cw.byte_offset + 2 ≤ e.cw.byte_offset)

-- No two controlwords share a byte.
abbrev pub AllApart : List Binding → Type 0
AllApart [] = Unit {0}
AllApart (d ∷ ds) = All (Apart d) ds × AllApart ds

-- No drive is told to enable operation, as the image shows.
abbrev pub NoneEnabled : List ℕ → List Binding → Type 0
NoneEnabled image ds = All (λ (d : Binding). read_value image d.cw ≢ cw_enable_op) ds

next_controlword-lt :
    (sw : ℕ) (cmd : DriveCommand) (fr_high : Bool) → (next_controlword sw cmd fr_high).0 < 65536
unfolding next_controlword
next_controlword-lt sw cmd fr_high = ground arith

read_word :
    (image : List ℕ) (len : ℕ) (d : Binding)
    → WordPin len d
    → read_value image d.cw
      ≡ byte_at image d.cw.byte_offset + 256 * byte_at image (d.cw.byte_offset + 1)
unfolding read_value read_bytes
read_word image len d w = rw (w.unsigned, w.sixteen) (omega arith)

length-write_word :
    (image : List ℕ) (len v : ℕ) (d : Binding)
    → WordPin len d
    → length (write_value image d.cw v) ≡ length image
length-write_word image len v d w =
    (write_value_frame image d.cw v (d.cw.byte_offset + 2)
      (inr (rw (w.unsigned, w.sixteen) (omega arith)))).1

byte-write_word :
    (image : List ℕ) (len v i : ℕ) (d : Binding)
    → WordPin len d
    → (i < d.cw.byte_offset) ⊎ (d.cw.byte_offset + 2 ≤ i)
    → byte_at (write_value image d.cw v) i ≡ byte_at image i
byte-write_word image len v i d w h =
    (write_value_frame image d.cw v i (rw (w.unsigned, w.sixteen) (omega arith))).0

-- The step writes the drives' words only.
step-other :
    (ds : List Binding) (image : List ℕ) (cmd : DriveCommand) (len i : ℕ)
    → All (WordPin len) ds
    → All (λ (e : Binding). (i < e.cw.byte_offset) ⊎ (e.cw.byte_offset + 2 ≤ i)) ds
    → byte_at (step ds image cmd).1 i ≡ byte_at image i
unfolding step
step-other [] image cmd len i w h = refl
step-other (d ∷ ds) image cmd len i w h =
    let cw = (next_controlword (u16 (read_value image d.sw)) cmd d.fr_high).0 in
    step-other ds (write_value image d.cw cw) cmd len i w.1 h.1
    ∙ byte-write_word image len cw i d w.0 h.0

Apart-outside :
    (d : Binding) (ds : List Binding) (i : ℕ)
    → d.cw.byte_offset ≤ i
    → i < d.cw.byte_offset + 2
    → All (Apart d) ds
    → All (λ (e : Binding). (i < e.cw.byte_offset) ⊎ (e.cw.byte_offset + 2 ≤ i)) ds
Apart-outside d [] i low high a = tt
Apart-outside d (e ∷ ds) i low high a = (omega (arith, a.0), Apart-outside d ds i low high a.1)

step-keeps_word :
    (d : Binding) (ds : List Binding) (image : List ℕ) (cmd : DriveCommand) (len : ℕ)
    → WordPin len d
    → All (WordPin len) ds
    → All (Apart d) ds
    → read_value (step ds image cmd).1 d.cw ≡ read_value image d.cw
step-keeps_word d ds image cmd len w ws a =
    let off = d.cw.byte_offset in
    let low =
      step-other ds image cmd len off ws (Apart-outside d ds off (omega arith) (omega arith) a) in
    let high =
      step-other ds image cmd len (off + 1) ws
        (Apart-outside d ds (off + 1) (omega arith) (omega arith) a) in
    omega (arith, low, high, read_word (step ds image cmd).1 len d w, read_word image len d w)

-- A command that never gives the word "enable operation" leaves it in no drive's word.
pub step-NoneEnabled :
    (ds : List Binding) (image : List ℕ) (cmd : DriveCommand)
    → ((sw : ℕ) (fr : Bool) → (next_controlword sw cmd fr).0 ≢ cw_enable_op)
    → All (WordPin (length image)) ds
    → AllApart ds
    → NoneEnabled (step ds image cmd).1 ds
unfolding step
step-NoneEnabled [] image cmd never ws a = tt
step-NoneEnabled (d ∷ ds) image cmd never ws a =
    let sw = u16 (read_value image d.sw) in
    let cw = (next_controlword sw cmd d.fr_high).0 in
    let image' = write_value image d.cw cw in
    let same = length-write_word image (length image) cw d ws.0 in
    let ws' : All (WordPin (length image')) ds = rw same ws.1 in
    let written : read_value image' d.cw ≡ cw =
      read_value-write_value image d.cw 2 cw ws.0.unsigned ws.0.sixteen ws.0.fits
        (next_controlword-lt sw cmd d.fr_high) in
    let kept = step-keeps_word d ds image' cmd (length image) ws.0 ws.1 a.0 in
    (
      λ e. never sw d.fr_high (sym written ∙ sym kept ∙ e),
      step-NoneEnabled ds image' cmd never ws' a.1,
    )

pub length-step :
    (ds : List Binding) (image : List ℕ) (cmd : DriveCommand)
    → length (step ds image cmd).1 ≡ length image
unfolding step
length-step [] image cmd = refl
length-step (d ∷ ds) image cmd =
    let cw = (next_controlword (u16 (read_value image d.sw)) cmd d.fr_high).0 in
    let beyond = d.cw.byte_offset + width d.cw.hal_type d.cw.bit_len in
    length-step ds (write_value image d.cw cw) cmd
    ∙ (write_value_frame image d.cw cw beyond (inr (omega arith))).1

-- ===== src/Datagram/Frames.antt =====
-- Frames built by `build` and grown by `append` hold the datagrams that were asked for.
use rtic_ecmaster.Base.{
  ℕ, ◌+◌, ◌-◌, ◌/◌, ◌%◌, ◌≤◌, ◌<◌, max, ◌≡◌, refl, sym, ap, ap₂, ◌∙◌, arith, true, false, Option,
  some, List, [], ◌∷◌, ◌++◌, append_assoc, length, take, drop, le16, length-append,
  length-replicate, length-drop, take-append, drop-append, low_bits, All, u16, replicate,
}
use rtic_ecmaster.Base.Checked.{checked_le16}
use rtic_ecmaster.Datagram.{
  Command, code, frame_hdr, mark_last, build, append_at, append, min_ecat_frame,
}
use rtic_ecmaster.Datagram.Wire.{Datagram, Fits, Short, encode, encode_all, Decodes}
use rtic_ecmaster.Datagram.Build.{datagram_bytes, build_lem}
use rtic_ecmaster.Datagram.Append.{
  encode_more, mark_last_lem, encode_all-append, length-encode_more, length-encode,
}
use rtic_ecmaster.Datagram.Chain.{append_at_lem}
use rtic_ecmaster.Datagram.Parse.{encode_all-Decodes, Decodes-same}

-- The datagram that a call asks for; the master writes a zero working counter.
abbrev pub request : ℕ → Command → ℕ → ℕ → List ℕ → Datagram
request index cmd adp ado payload = record {
  command = code cmd;
  index = index;
  adp = adp;
  ado = ado;
  payload = payload;
  working_counter = 0;
}

-- The first word of a frame: the length of its datagrams in the bits 0 to 10, and the type 1 in the
-- bits 12 to 15.
abbrev pub header_word : ℕ → ℕ
header_word n = n + 4096

frame_hdr-header_word : (n : ℕ) → n < 2048 → frame_hdr n ≡ header_word n
frame_hdr-header_word n h = ground arith

abbrev pub content : List Datagram → List ℕ
content ds = le16 (header_word (length (encode_all ds))) ++ encode_all ds

-- The first `total` bytes of the buffer are the frame of these datagrams, padded to 46 bytes.
pub record IsFrame (buf : List ℕ) (total : ℕ) (ds : List Datagram) : Type 0 where
  pub padding : List ℕ
  pub unused : List ℕ
  pub written : buf ≡ (content ds ++ padding) ++ unused
  pub sized : total ≡ length (content ds ++ padding)
  pub padded : total ≡ max (2 + length (encode_all ds)) min_ecat_frame

datagram_bytes-eq-encode :
    (index : ℕ) (cmd : Command) (adp ado : ℕ) (payload : List ℕ)
    → length payload < 2048
    → datagram_bytes index cmd adp ado payload ≡ encode false (request index cmd adp ado payload)
datagram_bytes-eq-encode index cmd adp ado payload h =
    let word : low_bits (u16 (length payload)) 11 ≡ length payload + 0 = omega arith in rw word

-- `build` in a buffer of enough room gives the frame of the one datagram, without a panic, as long
-- as the datagram fits the 11-bit length of the frame header.
pub build-IsFrame :
    (buf : List ℕ) (index : ℕ) (cmd : Command) (adp ado : ℕ) (payload : List ℕ)
    → 12 + length payload < 2048
    → 14 + length payload ≤ length buf
    → min_ecat_frame ≤ length buf
    → (buf' : List ℕ) × (total : ℕ) × (build buf index cmd adp ado payload ≡ some (buf', total))
      × IsFrame buf' total (request index cmd adp ado payload ∷ [])
      × (length buf' ≡ length buf)
build-IsFrame buf index cmd adp ado payload small h h46 = (
  (content ds ++ padding) ++ unused,
  max (14 + length payload) min_ecat_frame,
  build_lem buf index cmd adp ado payload h h46 ∙ shape,
  record {
    padding = padding;
    unused = unused;
    written = refl;
    sized = sized;
    padded = omega (arith, size);
  },
  omega (
    arith,
    sized,
    length-append (content ds ++ padding) unused,
    length-drop (max (14 + length payload) min_ecat_frame) buf,
  ),
)
  where
    ds : List Datagram
    ds = request index cmd adp ado payload ∷ []

    padding : List ℕ
    padding = replicate (min_ecat_frame - (14 + length payload)) 0

    unused : List ℕ
    unused = drop (max (14 + length payload) min_ecat_frame) buf

    size : length (encode_all ds) ≡ 12 + length payload
    size = length-encode false (request index cmd adp ado payload)

    sized : max (14 + length payload) min_ecat_frame ≡ length (content ds ++ padding)
    sized = omega (
      arith,
      size,
      length-append (content ds) padding,
      length-replicate {A = ℕ} (min_ecat_frame - (14 + length payload)) 0,
    )

    shape :
        ◌≡◌ {A = Option (List ℕ × ℕ)}
          (some (
            (le16 (frame_hdr (12 + length payload)) ++ datagram_bytes index cmd adp ado payload)
                ++ (padding ++ unused),
            max (14 + length payload) min_ecat_frame,
          ))
          (some ((content ds ++ padding) ++ unused, max (14 + length payload) min_ecat_frame))
    shape =
        ap₂
          (λ h bytes.
            some
              ((le16 h ++ bytes) ++ (padding ++ unused), max (14 + length payload) min_ecat_frame))
          (frame_hdr-header_word (12 + length payload) small ∙ ap header_word (sym size))
          (datagram_bytes-eq-encode index cmd adp ado payload (omega arith))
        ∙ ap (λ k. some (k, max (14 + length payload) min_ecat_frame))
            (sym (append_assoc (content ds) padding unused))

-- The part of the buffer that is sent decodes to the datagrams of the frame.
pub IsFrame-Decodes :
    {buf : List ℕ} {total : ℕ} (d : Datagram) (ds : List Datagram)
    → IsFrame buf total (d ∷ ds)
    → All Fits (d ∷ ds)
    → Decodes (take total buf) 2 (d ∷ ds)
IsFrame-Decodes {buf} {total} d ds h f = Decodes-same (d ∷ ds) sent refl (
    encode_all-Decodes (le16 (header_word (length (encode_all (d ∷ ds))))) h.padding d ds f
      (omega arith))
  where
    sent : take total buf ≡ content (d ∷ ds) ++ h.padding
    sent = rw (h.written, h.sized) (take-append (content (d ∷ ds) ++ h.padding) h.unused)

region_read :
    (n : ℕ) (rest : List ℕ)
    → n < 2048
    → checked_le16 (le16 (header_word n) ++ rest) 0 ≡ some (n + 4096)
unfolding checked_le16
region_read n rest h = ground arith

length-le-encode_all : (ds : List Datagram) → length ds ≤ length (encode_all ds)
length-le-encode_all [] = omega arith
length-le-encode_all (d ∷ []) = omega arith
length-le-encode_all (d ∷ e ∷ ds) =
    omega
      (arith, length-append (encode true d) (encode_all (e ∷ ds)), length-le-encode_all (e ∷ ds))

-- `append` to a frame gives the frame with one more datagram, without a panic, as long as the
-- buffer has room and the datagrams fit the 11-bit length of the frame header.
pub append-IsFrame :
    (buf : List ℕ) (total : ℕ) (d : Datagram) (ds : List Datagram) (index : ℕ) (cmd : Command)
    (adp ado : ℕ) (payload : List ℕ)
    → IsFrame buf total (d ∷ ds)
    → All Short (d ∷ ds)
    → length (encode_all (d ∷ ds)) + 12 + length payload < 2048
    → length (encode_all (d ∷ ds)) + 14 + length payload ≤ length buf
    → min_ecat_frame ≤ length buf
    → (buf' : List ℕ) × (total' : ℕ) × (append buf index cmd adp ado payload ≡ some (buf', total'))
      × IsFrame buf' total' (d ∷ (ds ++ (request index cmd adp ado payload ∷ [])))
      × (length buf' ≡ length buf)
unfolding append
append-IsFrame buf total d ds index cmd adp ado payload fr f small h h46 = (
  (content ds' ++ padding) ++ unused,
  max grown min_ecat_frame,
  called,
  record {
    padding = padding;
    unused = unused;
    written = refl;
    sized = sized;
    padded = omega (arith, size);
  },
  omega (
    arith,
    sized,
    size_marked,
    length-append (content ds' ++ padding) unused,
    length-drop (max grown min_ecat_frame) marked,
  ),
)
  where
    region : ℕ
    region = length (encode_all (d ∷ ds))

    rest : List ℕ
    rest = fr.padding ++ fr.unused

    -- The buffer behind the walk.
    marked : List ℕ
    marked = le16 (header_word region) ++ (encode_more (d ∷ ds) ++ rest)

    buf_shape : buf ≡ le16 (header_word region) ++ (encode_all (d ∷ ds) ++ rest)
    buf_shape =
        fr.written
        ∙ append_assoc (content (d ∷ ds)) fr.padding fr.unused
        ∙ append_assoc (le16 (header_word region)) (encode_all (d ∷ ds)) rest

    more_size : length (encode_more (d ∷ ds)) ≡ region
    more_size = length-encode_more d ds

    front_size : 2 + region ≡ length (le16 (header_word region) ++ encode_more (d ∷ ds))
    front_size = omega (arith, more_size)

    size_marked : length marked ≡ length buf
    size_marked = rw buf_shape (
        omega (
          arith,
          more_size,
          length-append (encode_more (d ∷ ds)) rest,
          length-append (encode_all (d ∷ ds)) rest,
        ))

    tail : drop (2 + region) marked ≡ rest
    tail =
        ap (λ k. drop k marked) front_size
        ∙ drop-append (le16 (header_word region) ++ encode_more (d ∷ ds)) rest

    marked_shape :
        marked ≡ (le16 (header_word region) ++ encode_more (d ∷ ds)) ++ drop (2 + region) marked
    marked_shape = ap (λ k. (le16 (header_word region) ++ encode_more (d ∷ ds)) ++ k) (sym tail)

    rounds_enough : length ds < length buf
    rounds_enough = omega (arith, length-le-encode_all (d ∷ ds))

    header : checked_le16 buf 0 ≡ some (region + 4096)
    header = rw buf_shape (region_read region (encode_all (d ∷ ds) ++ rest) (omega arith))

    low : low_bits (region + 4096) 11 ≡ region
    low = omega arith

    walked : mark_last (length buf) buf 2 (2 + region) ≡ some (marked, 2 + region)
    walked =
        ap (λ b. mark_last (length buf) b 2 (2 + region)) buf_shape
        ∙ mark_last_lem (length buf) (le16 (header_word region)) rest d ds (2 + region) f
            rounds_enough refl

    r : Datagram
    r = request index cmd adp ado payload

    ds' : List Datagram
    ds' = d ∷ (ds ++ (r ∷ []))

    grown : ℕ
    grown = 2 + region + 12 + length payload

    padding : List ℕ
    padding = replicate (min_ecat_frame - grown) 0

    unused : List ℕ
    unused = drop (max grown min_ecat_frame) marked

    bytes : encode_all ds' ≡ encode_more (d ∷ ds) ++ datagram_bytes index cmd adp ado payload
    bytes =
        encode_all-append (d ∷ ds) r
        ∙ ap (λ k. encode_more (d ∷ ds) ++ k)
            (sym (datagram_bytes-eq-encode index cmd adp ado payload (omega arith)))

    size : length (encode_all ds') ≡ region + 12 + length payload
    size =
        ap length (encode_all-append (d ∷ ds) r)
        ∙ omega (
          arith,
          more_size,
          length-append (encode_more (d ∷ ds)) (encode false r),
          length-encode false r,
        )

    sized : max grown min_ecat_frame ≡ length (content ds' ++ padding)
    sized = omega (
      arith,
      size,
      length-append (content ds') padding,
      length-replicate {A = ℕ} (min_ecat_frame - grown) 0,
    )

    shape :
        (le16 (frame_hdr (region + 12 + length payload))
            ++ (encode_more (d ∷ ds) ++ datagram_bytes index cmd adp ado payload))
          ++ (padding ++ unused)
        ≡ (content ds' ++ padding) ++ unused
    shape =
        ap₂ (λ h k. (le16 h ++ k) ++ (padding ++ unused))
          (frame_hdr-header_word (region + 12 + length payload) small ∙ ap header_word (sym size))
          (sym bytes)
        ∙ sym (append_assoc (content ds') padding unused)

    written :
        append_at marked (2 + region) region index cmd adp ado payload
        ≡ some ((content ds' ++ padding) ++ unused, max grown min_ecat_frame)
    written =
        ap (λ b. append_at b (2 + region) region index cmd adp ado payload) marked_shape
        ∙ append_at_lem (header_word region % 256) (header_word region / 256 % 256)
            (encode_more (d ∷ ds)) marked (2 + region) region index cmd adp ado payload
            (sym front_size) refl (omega (arith, size_marked)) (omega (arith, size_marked))
        ∙ ap (λ b. some (b, max grown min_ecat_frame)) shape

    called :
        append buf index cmd adp ado payload
        ≡ some ((content ds' ++ padding) ++ unused, max grown min_ecat_frame)
    called = rw (header, low, walked) written

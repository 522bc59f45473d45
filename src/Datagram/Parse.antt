-- ===== src/Datagram/Parse.antt =====
-- `parse_at` reads back every datagram of a frame.
use rtic_ecmaster.Base.{
  ℕ, ◌+◌, ◌-◌, ◌<◌, ◌≡◌, refl, sym, ap, ◌∙◌, arith, Bool, true, false, some, List, [], ◌∷◌, ◌++◌,
  append_assoc, if◌then◌else◌, le→ltb, length, slice, le16, read_le16, byte_at, length-append,
  take-append, drop-append_add, get_or-append_add, low_bits, test_bit, All,
}
use mathlib.Core.Option
use mathlib.Core.Path.{subst}
use rtic_ecmaster.Datagram.{Reply, parse, parse_at}
use rtic_ecmaster.Datagram.Wire.{
  Datagram, Fits, len_word, header, encode, encode_all, reply_of, Decodes,
}

-- Two bytes of a word behind a prefix.
read_le16_in :
    (pre ys : List ℕ) (i k : ℕ) → i ≡ length pre + k → read_le16 (pre ++ ys) i ≡ read_le16 ys k
read_le16_in pre ys i k e =
    rw (get_or-append_add pre ys i k 0 e, get_or-append_add pre ys (i + 1) (k + 1) 0 (omega arith))

-- `parse_at` at the end of any prefix reads the datagram that stands there.
module _ (pre rest : List ℕ) (d : Datagram) (fits : Fits d) where
  abbrev frame_of : Bool → List ℕ
  frame_of more = pre ++ (encode more d ++ rest)

  len_word_read : (more : Bool) → read_le16 (frame_of more) (length pre + 6) ≡ len_word more d
  len_word_read true =
      read_le16_in pre (encode true d ++ rest) (length pre + 6) 6 refl ∙ omega (arith, fits)
  len_word_read false =
      read_le16_in pre (encode false d ++ rest) (length pre + 6) 6 refl ∙ omega (arith, fits)

  low_len_word : (more : Bool) → low_bits (len_word more d) 11 ≡ length d.payload
  low_len_word true = omega (arith, fits)
  low_len_word false = omega (arith, fits)

  more_read : (more : Bool) → test_bit (len_word more d) 15 ≡ more
  more_read true = ground (arith, fits)
  more_read false = ground (arith, fits)

  command_read : (more : Bool) → byte_at (frame_of more) (length pre) ≡ d.command
  command_read more = get_or-append_add pre (encode more d ++ rest) (length pre) 0 0 (omega arith)

  index_read : (more : Bool) → byte_at (frame_of more) (length pre + 1) ≡ d.index
  index_read more = get_or-append_add pre (encode more d ++ rest) (length pre + 1) 1 0 refl

  counter_read :
      (more : Bool)
      → read_le16 (frame_of more) (length pre + 10 + length d.payload) ≡ d.working_counter
  counter_read more =
      let tail = le16 d.working_counter ++ rest in
      rw (append_assoc d.payload (le16 d.working_counter) rest) (
        read_le16_in pre (header more d ++ (d.payload ++ tail)) (length pre + 10 + length d.payload)
          (10 + length d.payload) (omega arith)
        ∙ read_le16_in (header more d ++ d.payload) tail (10 + length d.payload) 0 (omega arith)
        ∙ omega (arith, fits))

  payload_read :
      (more : Bool)
      → slice (length pre + 10) (length pre + 10 + length d.payload) (frame_of more) ≡ d.payload
  payload_read more =
      let tail = le16 d.working_counter ++ rest in
      let width : length pre + 10 + length d.payload - (length pre + 10) ≡ length d.payload =
        omega arith in
      rw
        (
          append_assoc d.payload (le16 d.working_counter) rest,
          width,
          drop-append_add pre (header more d ++ (d.payload ++ tail)) 10,
        )
        (take-append d.payload tail)

  length-frame_of :
      (more : Bool) → length (frame_of more) ≡ length pre + 12 + length d.payload + length rest
  length-frame_of more = omega (
    arith,
    length-append pre (encode more d ++ rest),
    length-append (d.payload ++ le16 d.working_counter) rest,
    length-append d.payload (le16 d.working_counter),
  )

  pub parse_at-encode :
      (more : Bool)
      → parse_at (frame_of more) (length pre)
        ≡ some (reply_of d, if more then length pre + 12 + length d.payload else 0)
  unfolding parse_at
  parse_at-encode more =
      rw
        (
          len_word_read more,
          low_len_word more,
          le→ltb (length (frame_of more)) (length pre + 10 + 2)
              (omega (arith, length-frame_of more)),
          le→ltb (length (frame_of more)) (length pre + 10 + length d.payload + 2)
              (omega (arith, length-frame_of more)),
          counter_read more,
          payload_read more,
          command_read more,
          index_read more,
          more_read more,
        )
        (rw (size more))
    where
      size :
          (m : Bool)
          → (if m then length pre + 10 + length d.payload + 2 else 0)
            ≡ (if m then length pre + 12 + length d.payload else 0)
      size m = ground arith

pub Decodes-same :
    {frame frame' : List ℕ} {off off' : ℕ} (ds : List Datagram)
    → frame ≡ frame'
    → off ≡ off'
    → Decodes frame' off' ds
    → Decodes frame off ds
Decodes-same {frame} {frame'} {off} {off'} ds e o h =
    subst (λ f. Decodes f off ds) (sym e) (subst (λ k. Decodes frame' k ds) (sym o) h)

-- Every datagram of a frame is read back, in order, with its working counter and its data.
pub encode_all-Decodes :
    (pre rest : List ℕ) (d : Datagram) (ds : List Datagram)
    → All Fits (d ∷ ds)
    → 0 < length pre
    → Decodes (pre ++ (encode_all (d ∷ ds) ++ rest)) (length pre) (d ∷ ds)
encode_all-Decodes pre rest d [] f h = (0, h, parse_at-encode pre rest d f.0 false, refl)
encode_all-Decodes pre rest d (e ∷ ds) f h = (
  length pre + 12 + length d.payload,
  h,
  rw (append_assoc (encode true d) (encode_all (e ∷ ds)) rest)
      (parse_at-encode pre (encode_all (e ∷ ds) ++ rest) d f.0 true),
  Decodes-same (e ∷ ds) regroup behind
      (encode_all-Decodes (pre ++ encode true d) rest e ds f.1 longer),
)
  where
    regroup :
        pre ++ ((encode true d ++ encode_all (e ∷ ds)) ++ rest)
        ≡ (pre ++ encode true d) ++ (encode_all (e ∷ ds) ++ rest)
    regroup =
        rw (append_assoc pre (encode true d) (encode_all (e ∷ ds) ++ rest))
          (ap (λ k. pre ++ k) (append_assoc (encode true d) (encode_all (e ∷ ds)) rest))

    longer : 0 < length (pre ++ encode true d)
    longer = omega (arith, length-append pre (encode true d))

    behind : length pre + 12 + length d.payload ≡ length (pre ++ encode true d)
    behind =
        omega (
          arith,
          length-append pre (encode true d),
          length-append d.payload (le16 d.working_counter),
        )

-- `parse` is the first reply of `parse_at` behind the frame header.
pub parse-eq-parse_at :
    (frame : List ℕ) → parse frame ≡ Option.map (λ (r : Reply × ℕ). r.0) (parse_at frame 2)
unfolding parse parse_at
parse-eq-parse_at frame = ground arith

-- ===== src/Datagram/Append.antt =====
-- What `append` does to the last datagram of a frame, and where it writes the new one.
use rtic_ecmaster.Base.{
  ℕ, zero, suc, ◌+◌, ◌*◌, ◌/◌, ◌%◌, ◌<◌, ◌≡◌, refl, sym, ap, ◌∙◌, arith, Bool, true, false, some,
  List, [], ◌∷◌, ◌++◌, append_assoc, append-nil, le→leb, lt→leb, length, le16, copy_at, copy_over,
  length-append, get_elem?-append_add, get_elem?, low_bits, set_bit, All,
}
use rtic_ecmaster.Base.Checked.{checked_le16}
use rtic_ecmaster.Datagram.{mark_last}
use rtic_ecmaster.Datagram.Wire.{Datagram, Short, len_word, encode, encode_all}

-- The datagrams with every "more follows" bit set.
abbrev pub encode_more : List Datagram → List ℕ
encode_more [] = []
encode_more (d ∷ ds) = encode true d ++ encode_more ds

pub length-encode : (more : Bool) (d : Datagram) → length (encode more d) ≡ 12 + length d.payload
length-encode more d = omega (arith, length-append d.payload (le16 d.working_counter))

length-encode_all_pos : (d : Datagram) (ds : List Datagram) → 0 < length (encode_all (d ∷ ds))
length-encode_all_pos d [] = omega arith
length-encode_all_pos d (e ∷ ds) = omega arith

pub length-encode_more :
    (d : Datagram) (ds : List Datagram)
    → length (encode_more (d ∷ ds)) ≡ length (encode_all (d ∷ ds))
length-encode_more d [] =
    omega (arith, length-append (encode true d) [], length-encode true d, length-encode false d)
length-encode_more d (e ∷ ds) = omega (
  arith,
  length-append (encode true d) (encode_more (e ∷ ds)),
  length-append (encode true d) (encode_all (e ∷ ds)),
  length-encode_more e ds,
)

pub encode_all-append :
    (ds : List Datagram) (d : Datagram)
    → encode_all (ds ++ (d ∷ [])) ≡ encode_more ds ++ encode false d
encode_all-append [] d = refl
encode_all-append (c ∷ []) d = rw append-nil
encode_all-append (c ∷ e ∷ ds) d =
    rw (encode_all-append (e ∷ ds) d)
      (sym (append_assoc (encode true c) (encode_more (e ∷ ds)) (encode false d)))

checked_le16_in :
    (pre ys : List ℕ) (i k a b : ℕ)
    → i ≡ length pre + k
    → get_elem? ys k ≡ some a
    → get_elem? ys (k + 1) ≡ some b
    → checked_le16 (pre ++ ys) i ≡ some (a + 256 * b)
unfolding checked_le16
checked_le16_in pre ys i k a b e ha hb = rw (
  get_elem?-append_add pre ys i k e,
  ha,
  get_elem?-append_add pre ys (i + 1) (k + 1) (omega arith),
  hb,
)

more_bit : (d : Datagram) → Short d → set_bit (len_word false d) 15 ≡ len_word true d
more_bit d f = ground (arith, f)

-- The word of the last datagram gets its bit.
mark_lem :
    (pre rest : List ℕ) (d : Datagram)
    → Short d
    → copy_at
        (length pre + 6)
        (le16 (set_bit (len_word false d) 15))
        (pre ++ (encode false d ++ rest))
      ≡ some (pre ++ (encode true d ++ rest))
mark_lem pre rest d f =
    rw (more_bit d f, ← append_assoc pre address (le16 (len_word false d) ++ tail))
      (rw (
        copy_over (length pre + 6) (pre ++ address) (le16 (len_word false d))
            (le16 (len_word true d)) tail (omega (arith, length-append pre address)) refl,
        append_assoc,
      ))
  where
    address : List ℕ
    address = d.command ∷ d.index ∷ (le16 d.adp ++ le16 d.ado)

    tail : List ℕ
    tail = 0 ∷ 0 ∷ ((d.payload ++ le16 d.working_counter) ++ rest)

word_value :
    (more : Bool) (d : Datagram)
    → Short d
    → len_word more d % 256 + 256 * (len_word more d / 256 % 256) ≡ len_word more d
word_value true d f = omega (arith, f)
word_value false d f = omega (arith, f)

low_len_word :
    (more : Bool) (d : Datagram) → Short d → low_bits (len_word more d) 11 ≡ length d.payload
low_len_word true d f = omega (arith, f)
low_len_word false d f = omega (arith, f)

len_word_checked :
    (pre rest : List ℕ) (more : Bool) (d : Datagram)
    → Short d
    → checked_le16 (pre ++ (encode more d ++ rest)) (length pre + 6) ≡ some (len_word more d)
len_word_checked pre rest more d f =
    checked_le16_in pre (encode more d ++ rest) (length pre + 6) 6 _ _ refl refl refl
    ∙ ap some (word_value more d f)

-- The walk of `append` ends behind the last datagram, and marks that one alone.
pub mark_last_lem :
    (rounds : ℕ) (pre rest : List ℕ) (d : Datagram) (ds : List Datagram) (region_end : ℕ)
    → All Short (d ∷ ds)
    → length ds < rounds
    → region_end ≡ length pre + length (encode_all (d ∷ ds))
    → mark_last rounds (pre ++ (encode_all (d ∷ ds) ++ rest)) (length pre) region_end
      ≡ some (pre ++ (encode_more (d ∷ ds) ++ rest), region_end)
unfolding mark_last
mark_last_lem zero pre rest d ds re f r e = absurd (omega arith)
mark_last_lem (suc rounds) pre rest d [] re f r e =
    let behind : length pre + 10 + length d.payload + 2 ≡ re =
      omega (arith, length-encode false d) in
    rw (
      len_word_checked pre rest false d f.0,
      low_len_word false d f.0,
      behind,
      le→leb re re (omega arith),
      mark_lem pre rest d f.0,
      append-nil,
    )
mark_last_lem (suc rounds) pre rest d (e ∷ ds) re f r h =
    rw
      (
        append_assoc (encode true d) (encode_all (e ∷ ds)) rest,
        len_word_checked pre (encode_all (e ∷ ds) ++ rest) true d f.0,
        low_len_word true d f.0,
        lt→leb re (length pre + 10 + length d.payload + 2) further,
        behind,
        ← append_assoc pre (encode true d) (encode_all (e ∷ ds) ++ rest),
        mark_last_lem rounds (pre ++ encode true d) rest e ds re f.1 (omega arith)
            (omega (arith, sizes, length-append pre (encode true d))),
        append_assoc pre (encode true d) (encode_more (e ∷ ds) ++ rest),
        append_assoc (encode true d) (encode_more (e ∷ ds)) rest,
      )
      refl
  where
    sizes :
        length (encode true d ++ encode_all (e ∷ ds))
        ≡ length (encode true d) + length (encode_all (e ∷ ds))
    sizes = length-append (encode true d) (encode_all (e ∷ ds))

    behind : length pre + 10 + length d.payload + 2 ≡ length (pre ++ encode true d)
    behind = omega (arith, length-append pre (encode true d), length-encode true d)

    further : length pre + 10 + length d.payload + 2 < re
    further = omega (arith, h, sizes, length-encode true d, length-encode_all_pos e ds)

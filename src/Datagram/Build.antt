-- ===== src/Datagram/Build.antt =====
-- What `build` writes into a buffer that is large enough.
use rtic_ecmaster.Base.{
  ℕ, zero, suc, ◌+◌, ◌-◌, ◌≤◌, ◌<◌, max, ◌≡◌, refl, arith, Option, some, List, [], ◌∷◌, ◌++◌,
  append_assoc, lt→ltb, le→ltb, length, drop, replicate, copy_step, le16, length-append, low_bits,
  u16,
}
use native.Mathlib.Decide.{dec_lt}
use rtic_ecmaster.Datagram.{Command, code, frame_hdr, pad_frame, build, min_ecat_frame}

pad_done :
    (n : ℕ) (pre buf : List ℕ)
    → min_ecat_frame ≤ n
    → ◌≡◌ {A = Option (List ℕ × ℕ)} (some (pre ++ drop n buf, n)) (
        some (
          pre ++ (replicate (min_ecat_frame - n) 0 ++ drop (max n min_ecat_frame) buf),
          max n min_ecat_frame,
        ))
pad_done n pre buf h =
    let none_left : min_ecat_frame - n ≡ 0 = omega arith in
    let all_there : max n min_ecat_frame ≡ n = omega arith in rw (none_left, all_there)

one_more :
    (n : ℕ) (pre buf : List ℕ)
    → n < min_ecat_frame
    → ◌≡◌ {A = Option (List ℕ × ℕ)}
        (some (
          (pre ++ (0 ∷ []))
              ++ (replicate (min_ecat_frame - (n + 1)) 0 ++ drop (max (n + 1) min_ecat_frame) buf),
          max (n + 1) min_ecat_frame,
        ))
        (some (
          pre ++ (replicate (min_ecat_frame - n) 0 ++ drop (max n min_ecat_frame) buf),
          max n min_ecat_frame,
        ))
one_more n pre buf h =
    let one_left : min_ecat_frame - n ≡ suc (min_ecat_frame - (n + 1)) = omega arith in
    let same : max (n + 1) min_ecat_frame ≡ max n min_ecat_frame = omega arith in
    rw (one_left, same, append_assoc)

-- The padding loop fills the buffer with zeros from `n` up to 46.
pub pad_frame_lem :
    (rounds n : ℕ) (pre buf : List ℕ)
    → length pre ≡ n
    → n ≤ length buf
    → min_ecat_frame ≤ length buf
    → min_ecat_frame ≤ rounds + n
    → pad_frame rounds (pre ++ drop n buf) n
      ≡ some (
        pre ++ (replicate (min_ecat_frame - n) 0 ++ drop (max n min_ecat_frame) buf),
        max n min_ecat_frame,
      )
unfolding pad_frame
pad_frame_lem zero n pre buf e h h46 r = pad_done n pre buf (omega arith)
pad_frame_lem (suc rounds) n pre buf e h h46 r = elim (dec_lt n min_ecat_frame) [
  | yes p ↦
      rw (lt→ltb _ _ p, copy_step n pre (0 ∷ []) buf e (omega arith))
        (rw (← append_assoc pre (0 ∷ []) (drop (n + 1) buf)) (
          rw
            (pad_frame_lem rounds (n + 1) (pre ++ (0 ∷ [])) buf
              (omega (arith, length-append pre (0 ∷ []))) (omega arith) h46 (omega arith))
            (one_more n pre buf p)))
  | no p ↦ rw (le→ltb n min_ecat_frame (omega arith)) (pad_done n pre buf (omega arith))
]

-- The bytes of a frame with one datagram, without its padding.
abbrev pub datagram_bytes : ℕ → Command → ℕ → ℕ → List ℕ → List ℕ
datagram_bytes index cmd adp ado payload =
    code cmd
    ∷ index
    ∷ (le16 adp
        ++ (le16 ado
            ++ (le16 (low_bits (u16 (length payload)) 11) ++ (0 ∷ 0 ∷ (payload ++ (0 ∷ 0 ∷ []))))))

pub build_lem :
    (buf : List ℕ) (index : ℕ) (cmd : Command) (adp ado : ℕ) (payload : List ℕ)
    → 14 + length payload ≤ length buf
    → min_ecat_frame ≤ length buf
    → let total = 14 + length payload in
      build buf index cmd adp ado payload
      ≡ some (
        (le16 (frame_hdr (12 + length payload)) ++ datagram_bytes index cmd adp ado payload)
            ++ (replicate (min_ecat_frame - total) 0 ++ drop (max total min_ecat_frame) buf),
        max total min_ecat_frame,
      )
unfolding build
build_lem buf index cmd adp ado payload h h46 =
    let hdr = le16 (frame_hdr (12 + length payload)) in
    let p4 = hdr ++ (code cmd ∷ index ∷ []) in
    let p8 = p4 ++ (le16 adp ++ le16 ado) in
    let p12 = p8 ++ (le16 (low_bits (u16 (length payload)) 11) ++ (0 ∷ 0 ∷ [])) in
    let regroup : 10 + length payload + 2 ≡ 12 + length payload = omega arith in
    let size : 2 + (12 + length payload) ≡ 14 + length payload = omega arith in
    let behind : 12 + length payload + 2 ≡ 14 + length payload = omega arith in
    rw (regroup, size)
      (rw
        (
          copy_step 0 [] hdr buf refl (omega arith),
          copy_step 2 hdr (code cmd ∷ []) buf refl (omega arith),
          copy_step 3 (hdr ++ (code cmd ∷ [])) (index ∷ []) buf refl (omega arith),
          copy_step 4 p4 (le16 adp) buf refl (omega arith),
          copy_step 6 (p4 ++ le16 adp) (le16 ado) buf refl (omega arith),
          copy_step 8 p8 (le16 (low_bits (u16 (length payload)) 11)) buf refl (omega arith),
          copy_step 10 (p8 ++ le16 (low_bits (u16 (length payload)) 11)) (0 ∷ 0 ∷ []) buf refl
              (omega arith),
          copy_step 12 p12 payload buf refl (omega arith),
          copy_step (12 + length payload) (p12 ++ payload) (0 ∷ 0 ∷ []) buf
              (omega (arith, length-append p12 payload)) (omega arith),
          behind,
          ← append_assoc payload (0 ∷ 0 ∷ []) (drop (14 + length payload) buf),
        )
        (pad_frame_lem 46 (14 + length payload) ((p12 ++ payload) ++ (0 ∷ 0 ∷ [])) buf
          (omega (arith, length-append p12 payload, length-append (p12 ++ payload) (0 ∷ 0 ∷ []))) h
          h46 (omega arith)))

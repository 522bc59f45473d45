-- ===== src/Datagram/Chain.antt =====
-- Where `append_at` writes behind a datagram region.
use rtic_ecmaster.Base.{
  ℕ, ◌+◌, ◌-◌, ◌≤◌, max, ◌≡◌, refl, arith, some, List, [], ◌∷◌, ◌++◌, append_assoc, length, drop,
  le16, copy_next, copy_over, length-append, low_bits, u16, replicate,
}
use rtic_ecmaster.Datagram.{Command, code, frame_hdr, append_at, min_ecat_frame}
use rtic_ecmaster.Datagram.Build.{datagram_bytes, pad_frame_lem}

-- The writes of `append_at`, over a buffer whose first `off` bytes are `h0 ∷ h1 ∷ body`.
pub append_at_lem :
    (h0 h1 : ℕ) (body buf : List ℕ) (off region index : ℕ) (cmd : Command) (adp ado : ℕ)
    (payload : List ℕ)
    → length (h0 ∷ h1 ∷ body) ≡ off
    → 2 + region ≡ off
    → off + 12 + length payload ≤ length buf
    → min_ecat_frame ≤ length buf
    → let total = off + 12 + length payload in
      append_at ((h0 ∷ h1 ∷ body) ++ drop off buf) off region index cmd adp ado payload
      ≡ some (
        (le16 (frame_hdr (region + 12 + length payload))
              ++ (body ++ datagram_bytes index cmd adp ado payload))
            ++ (replicate (min_ecat_frame - total) 0 ++ drop (max total min_ecat_frame) buf),
        max total min_ecat_frame,
      )
unfolding append_at
append_at_lem h0 h1 body buf off region index cmd adp ado payload e r h h46 =
    let o2 : off + 1 + 1 ≡ off + 2 = omega arith in
    let o4 : off + 2 + 2 ≡ off + 4 = omega arith in
    let o6 : off + 4 + 2 ≡ off + 6 = omega arith in
    let o8 : off + 6 + 2 ≡ off + 8 = omega arith in
    let o10 : off + 8 + 2 ≡ off + 10 = omega arith in
    let behind : off + 10 + length payload + 2 ≡ off + 12 + length payload = omega arith in
    let region' : region + 10 + length payload + 2 ≡ region + 12 + length payload = omega arith in
    let total : 2 + (region + 12 + length payload) ≡ off + 12 + length payload = omega arith in
    let word = le16 (low_bits (u16 (length payload)) 11) in
    let p0 = h0 ∷ h1 ∷ body in
    let p1 = p0 ++ (code cmd ∷ []) in
    let p2 = p1 ++ (index ∷ []) in
    let p4 = p2 ++ le16 adp in
    let p6 = p4 ++ le16 ado in
    let p8 = p6 ++ word in
    let p10 = p8 ++ (0 ∷ 0 ∷ []) in
    let l1 : length p1 ≡ off + 1 = omega (arith, length-append p0 (code cmd ∷ [])) in
    let l2 : length p2 ≡ off + 2 = omega (arith, length-append p1 (index ∷ [])) in
    let l4 : length p4 ≡ off + 4 = omega (arith, length-append p2 (le16 adp)) in
    let l6 : length p6 ≡ off + 6 = omega (arith, length-append p4 (le16 ado)) in
    let l8 : length p8 ≡ off + 8 = omega (arith, length-append p6 word) in
    let l10 : length p10 ≡ off + 10 = omega (arith, length-append p8 (0 ∷ 0 ∷ [])) in
    let lp : length (p10 ++ payload) ≡ off + 10 + length payload =
      omega (arith, length-append p10 payload) in
    let body' =
      (((((((body ++ (code cmd ∷ [])) ++ (index ∷ [])) ++ le16 adp) ++ le16 ado) ++ word)
          ++ (0 ∷ 0 ∷ []))
        ++ payload)
      ++ (0 ∷ 0 ∷ []) in
    rw
      (
        region',
        total,
        copy_next off p0 (code cmd ∷ []) buf e (omega arith),
        copy_next (off + 1) p1 (index ∷ []) buf l1 (omega arith),
        o2,
        copy_next (off + 2) p2 (le16 adp) buf l2 (omega arith),
        o4,
        copy_next (off + 4) p4 (le16 ado) buf l4 (omega arith),
        o6,
        copy_next (off + 6) p6 word buf l6 (omega arith),
        o8,
        copy_next (off + 8) p8 (0 ∷ 0 ∷ []) buf l8 (omega arith),
        o10,
        copy_next (off + 10) p10 payload buf l10 (omega arith),
        copy_next (off + 10 + length payload) (p10 ++ payload) (0 ∷ 0 ∷ []) buf lp (omega arith),
        behind,
        copy_over 0 [] (h0 ∷ h1 ∷ []) (le16 (frame_hdr (region + 12 + length payload)))
            (body' ++ drop (off + 12 + length payload) buf) refl refl,
        pad_frame_lem 46 (off + 12 + length payload)
            (le16 (frame_hdr (region + 12 + length payload)) ++ body') buf
            (omega (arith, length-append (p10 ++ payload) (0 ∷ 0 ∷ []))) (omega arith) h46
            (omega arith),
      )
      (simp append_assoc)

-- ===== src/HostBridge/Reply.antt =====
-- The reply to the host: its CRC covers what it carries.
use rtic_ecmaster.Base.{
  ℕ, zero, suc, ◌+◌, ◌-◌, ◌≤◌, ◌<◌, min, ◌≡◌, refl, ap, ◌∙◌, arith, List, [], ◌∷◌, length, take,
  replicate, slice, overwrite, length-overwrite, get_or-overwrite_in, get_or-take, read_le16, le16,
  u16,
}
use rtic_ecmaster.HostBridge.{
  Layout, HostBridge, ReplyStatus, crc16, crc_from, crc_byte, frame_len, miso_len, in_bytes,
  build_reply, reply, reply_header,
}
use rtic_ecmaster.HostBridge.Crc.{crc_byte-bounded}

crc_from-lt : (crc : ℕ) (bs : List ℕ) → crc < 65536 → crc_from crc bs < 65536
unfolding crc_from
crc_from-lt crc [] h = h
crc_from-lt crc (b ∷ bs) h = crc_from-lt (crc_byte crc b) bs (crc_byte-bounded crc b)

take-overwrite : (p : ℕ) (xs src : List ℕ) → take p (overwrite xs p src) ≡ take p xs
take-overwrite zero xs src = refl
take-overwrite (suc p) [] src = refl
take-overwrite (suc p) (x ∷ xs) src = ap (◌∷◌ x) (take-overwrite p xs src)

take-take : (p n : ℕ) (xs : List ℕ) → p ≤ n → take p (take n xs) ≡ take p xs
take-take zero n xs h = refl
take-take (suc p) zero xs h = absurd (omega arith)
take-take (suc p) (suc n) [] h = refl
take-take (suc p) (suc n) (x ∷ xs) h = ap (◌∷◌ x) (take-take p n xs (omega arith))

-- A message whose CRC is written behind it.
sealed-crc :
    (p n : ℕ) (xs : List ℕ)
    → n ≡ p + 2
    → n ≤ length xs
    → let f = take n (overwrite xs p (le16 (crc16 (take p xs)))) in crc16 (take p f) ≡ read_le16 f p
sealed-crc p n xs e h =
    let c = crc16 (take p xs) in
    let whole = overwrite xs p (le16 c) in
    let message : take p (take n whole) ≡ take p xs =
      take-take p n whole (omega arith) ∙ take-overwrite p xs (le16 c) in
    ap crc16 message
    ∙ omega (
      arith,
      crc_from-lt 0xFFFF (take p xs) (omega arith),
      get_or-take n whole p 0 (omega arith),
      get_or-take n whole (p + 1) 0 (omega arith),
      get_or-overwrite_in xs p (le16 c) p 0 0 (omega arith) (omega arith) (omega arith),
      get_or-overwrite_in xs p (le16 c) (p + 1) 1 0 (omega arith) (omega arith) (omega arith),
    )

-- The reply that is built, in a buffer of the frame length, carries behind its other bytes the CRC of
-- exactly these bytes, whatever the image, the status and the state of the bridge are.
pub build_reply-crc :
    (layout : Layout) (h : HostBridge) (image : List ℕ) (st : ReplyStatus)
    → length h.staged_in ≡ frame_len layout
    → let f = reply layout (build_reply layout h image st) in
      let crc_pos = miso_len layout - 2 in crc16 (take crc_pos f) ≡ read_le16 f crc_pos
unfolding build_reply
build_reply-crc layout h image st size =
    let h' : HostBridge = record h { teensy_wdog = u16 (h.teensy_wdog + 1) } in
    let cleared = overwrite h.staged_in 0 (replicate (miso_len layout) 0) in
    let headed = overwrite cleared 0 (reply_header h' st) in
    let in_off = layout.bus.image_size - in_bytes layout in
    let n = min (in_bytes layout) (length image - in_off) in
    let inputs = slice in_off (in_off + n) image in
    sealed-crc (miso_len layout - 2) (miso_len layout) (overwrite headed 18 inputs) (omega arith) (
      omega (
        arith,
        length-overwrite h.staged_in 0 (replicate (miso_len layout) 0),
        length-overwrite cleared 0 (reply_header h' st),
        length-overwrite headed 18 inputs,
      ))

-- ===== src/HostBridge/Crc.antt =====
-- What the CRC of the host frames detects.
use Prim.Native.Nat.{bit_xor}
use rtic_ecmaster.Base.{
  ℕ, zero, suc, ◌*◌, ◌<◌, ◌≡◌, ◌≢◌, arith, List, [], ◌∷◌, length, get_or, set, All, u16,
}
use rtic_ecmaster.Base.Bits.{bit_xor-lt}
use rtic_ecmaster.Base.Xor.{bit_xor-digit, bit_xor-cancel_left, bit_xor-cancel_right}
use rtic_ecmaster.HostBridge.{crc_shift, crc_shifts, crc_byte, crc_from, crc16}

crc_shift-lt : (x : ℕ) → crc_shift x < 65536
crc_shift-lt x = ground (arith, bit_xor-lt 16 (u16 (2 * x)) 0x1021 (omega arith) (omega arith))

-- A shift of the register can be undone: the polynomial's last bit tells whether it was added.
crc_shift-cancel : (x y : ℕ) → x < 65536 → y < 65536 → crc_shift x ≡ crc_shift y → x ≡ y
crc_shift-cancel x y hx hy e = ground (
  arith,
  bit_xor-digit (u16 (2 * x)) 0x1021,
  bit_xor-digit (u16 (2 * y)) 0x1021,
  bit_xor-cancel_right 16 (u16 (2 * x)) (u16 (2 * y)) 0x1021 (omega arith) (omega arith),
)

crc_shifts-lt : (n x : ℕ) → x < 65536 → crc_shifts n x < 65536
crc_shifts-lt zero x h = h
crc_shifts-lt (suc n) x h = crc_shifts-lt n (crc_shift x) (crc_shift-lt x)

crc_shifts-cancel : (n x y : ℕ) → x < 65536 → y < 65536 → crc_shifts n x ≡ crc_shifts n y → x ≡ y
crc_shifts-cancel zero x y hx hy e = e
crc_shifts-cancel (suc n) x y hx hy e =
    crc_shift-cancel x y hx hy
      (crc_shifts-cancel n (crc_shift x) (crc_shift y) (crc_shift-lt x) (crc_shift-lt y) e)

mixed-lt : (crc b : ℕ) → crc < 65536 → b < 256 → bit_xor crc (b * 256) < 65536
mixed-lt crc b h hb = bit_xor-lt 16 crc (b * 256) h (omega arith)

crc_byte-lt : (crc b : ℕ) → crc < 65536 → b < 256 → crc_byte crc b < 65536
crc_byte-lt crc b h hb = crc_shifts-lt 8 (bit_xor crc (b * 256)) (mixed-lt crc b h hb)

crc_byte-cancel :
    (x y b : ℕ) → x < 65536 → y < 65536 → b < 256 → crc_byte x b ≡ crc_byte y b → x ≡ y
crc_byte-cancel x y b hx hy hb e = bit_xor-cancel_right 16 x y (b * 256) hx hy (
    crc_shifts-cancel 8 (bit_xor x (b * 256)) (bit_xor y (b * 256)) (mixed-lt x b hx hb)
      (mixed-lt y b hy hb) e)

crc_byte-cancel_byte :
    (crc b c : ℕ) → crc < 65536 → b < 256 → c < 256 → crc_byte crc b ≡ crc_byte crc c → b ≡ c
crc_byte-cancel_byte crc b c h hb hc e =
    let same : b * 256 ≡ c * 256 =
      bit_xor-cancel_left 16 (b * 256) (c * 256) crc (omega arith) (omega arith) (
        crc_shifts-cancel 8 (bit_xor crc (b * 256)) (bit_xor crc (c * 256)) (mixed-lt crc b h hb)
          (mixed-lt crc c h hc) e) in
    omega arith

pub crc_byte-bounded : (crc b : ℕ) → crc_byte crc b < 65536
crc_byte-bounded crc b =
    crc_shifts-lt 7 (crc_shift (bit_xor crc (b * 256))) (crc_shift-lt (bit_xor crc (b * 256)))

crc_from-cancel :
    (bs : List ℕ) (x y : ℕ)
    → x < 65536
    → y < 65536
    → All (λ b. b < 256) bs
    → crc_from x bs ≡ crc_from y bs
    → x ≡ y
unfolding crc_from
crc_from-cancel [] x y hx hy bytes e = e
crc_from-cancel (b ∷ bs) x y hx hy bytes e = crc_byte-cancel x y b hx hy bytes.0 (
    crc_from-cancel bs (crc_byte x b) (crc_byte y b) (crc_byte-lt x b hx bytes.0)
      (crc_byte-lt y b hy bytes.0) bytes.1 e)

crc_from-set :
    (crc : ℕ) (bs : List ℕ) (i v : ℕ)
    → crc < 65536
    → All (λ b. b < 256) bs
    → v < 256
    → i < length bs
    → v ≢ get_or bs i 0
    → crc_from crc (set bs i v) ≢ crc_from crc bs
unfolding crc_from
crc_from-set crc [] i v h bytes hv hi ne e = absurd (omega arith)
crc_from-set crc (b ∷ bs) zero v h bytes hv hi ne e = ne (
    crc_byte-cancel_byte crc v b h hv bytes.0 (
      crc_from-cancel bs (crc_byte crc v) (crc_byte crc b) (crc_byte-lt crc v h hv)
        (crc_byte-lt crc b h bytes.0) bytes.1 e))
crc_from-set crc (b ∷ bs) (suc i) v h bytes hv hi ne e =
    crc_from-set (crc_byte crc b) bs i v (crc_byte-lt crc b h bytes.0) bytes.1 hv (omega arith) ne e

-- The CRC tells every message from the same message with any one byte changed.
pub crc16-set :
    (bs : List ℕ) (i v : ℕ)
    → All (λ b. b < 256) bs
    → v < 256
    → i < length bs
    → v ≢ get_or bs i 0
    → crc16 (set bs i v) ≢ crc16 bs
crc16-set bs i v bytes hv hi ne = crc_from-set 0xFFFF bs i v (omega arith) bytes hv hi ne

-- ===== src/HostBridge/Link.antt =====
-- The link to the host: damaged frames, a silent host, and the replies.
use mathlib.Core.Path.{subst}
use rtic_ecmaster.Base.{
  ℕ, zero, suc, ◌+◌, ◌-◌, ◌≤◌, ◌<◌, min, ◌≡◌, ◌≢◌, refl, sym, ap, ◌∙◌, inl, inr, arith, true, List,
  [], ◌∷◌, ltb, length, get_or, get_or-set_ne, get_or-set_self, get_or-take, byte_at-lt, set, take,
  All, byte_at, u32, read_le16, Bool-cases,
}
use rtic_ecmaster.HostBridge.{Layout, HostBridge, mosi_len, crc16, accepts, ingest, tick_watchdog}
use rtic_ecmaster.HostBridge.Crc.{crc16-set}

take-set_lt : (n : ℕ) (xs : List ℕ) (i v : ℕ) → i < n → take n (set xs i v) ≡ set (take n xs) i v
take-set_lt zero xs i v h = absurd (omega arith)
take-set_lt (suc n) [] i v h = refl
take-set_lt (suc n) (x ∷ xs) zero v h = refl
take-set_lt (suc n) (x ∷ xs) (suc i) v h = ap (◌∷◌ x) (take-set_lt n xs i v (omega arith))

take-set_ge : (n : ℕ) (xs : List ℕ) (i v : ℕ) → n ≤ i → take n (set xs i v) ≡ take n xs
take-set_ge zero xs i v h = refl
take-set_ge (suc n) [] i v h = refl
take-set_ge (suc n) (x ∷ xs) zero v h = absurd (omega arith)
take-set_ge (suc n) (x ∷ xs) (suc i) v h = ap (◌∷◌ x) (take-set_ge n xs i v (omega arith))

take-All : (n : ℕ) (xs : List ℕ) → All (λ b. b < 256) xs → All (λ b. b < 256) (take n xs)
take-All zero xs h = tt
take-All (suc n) [] h = tt
take-All (suc n) (x ∷ xs) h = (h.0, take-All n xs h.1)

length-take_le : (n : ℕ) (xs : List ℕ) → n ≤ length xs → length (take n xs) ≡ n
length-take_le zero xs h = refl
length-take_le (suc n) [] h = absurd (omega arith)
length-take_le (suc n) (x ∷ xs) h = ap suc (length-take_le n xs (omega arith))

-- A changed byte breaks the agreement of the message and the CRC behind it.
changed-crc :
    (bs : List ℕ) (p i v : ℕ)
    → length bs ≡ p + 2
    → All (λ b. b < 256) bs
    → v < 256
    → i < length bs
    → v ≢ get_or bs i 0
    → crc16 (take p bs) ≡ read_le16 bs p
    → crc16 (take p (set bs i v)) ≢ read_le16 (set bs i v) p
changed-crc bs p i v size bytes hv hi ne e e' = elim (Bool-cases (ltb i p)) [
  | inl t ↦
      let below : i < p = ground arith in
      let lo : get_or (set bs i v) p 0 ≡ get_or bs p 0 =
        get_or-set_ne bs i p v 0 (λ q. omega arith) in
      let hi' : get_or (set bs i v) (p + 1) 0 ≡ get_or bs (p + 1) 0 =
        get_or-set_ne bs i (p + 1) v 0 (λ q. omega arith) in
      let wants : read_le16 (set bs i v) p ≡ read_le16 bs p = omega arith in
      crc16-set (take p bs) i v (take-All p bs bytes) hv
        (omega (arith, length-take_le p bs (omega arith)))
        (λ q. ne (q ∙ get_or-take p bs i 0 below))
        (ap crc16 (sym (take-set_lt p bs i v below)) ∙ (e' ∙ (wants ∙ sym e)))
  | inr t ↦
      let above : p ≤ i = ground arith in
      let same : read_le16 (set bs i v) p ≡ read_le16 bs p =
        sym e' ∙ (ap crc16 (take-set_ge p bs i v above) ∙ e) in
      ground (
        arith,
        get_or-set_self bs i v 0 hi,
        get_or-set_ne bs i p v 0,
        get_or-set_ne bs i (p + 1) v 0,
        byte_at-lt bs p bytes,
        byte_at-lt bs (p + 1) bytes,
        same,
      )
]

accepts-crc :
    (layout : Layout) (bs : List ℕ)
    → accepts layout bs ≡ true
    → let frame = take (mosi_len layout) bs in
      crc16 (take (mosi_len layout - 2) frame) ≡ read_le16 frame (mosi_len layout - 2)
accepts-crc layout bs ok = ground arith

-- A frame that the bridge would accept, of the host's length or padded behind it, with any one byte
-- of the host's part changed on the wire, is rejected: the staged outputs, the host's flags and
-- heartbeat and the motion ring stay as they are, and only the error count grows.
pub ingest-changed :
    (layout : Layout) (h : HostBridge) (mosi : List ℕ) (i v : ℕ)
    → mosi_len layout ≤ length mosi
    → All (λ b. b < 256) mosi
    → accepts layout mosi ≡ true
    → v < 256
    → i < mosi_len layout
    → v ≢ byte_at mosi i
    → ingest layout h (set mosi i v) ≡ record h { crc_errs = u32 (h.crc_errs + 1) }
unfolding ingest
ingest-changed layout h mosi i v size bytes ok hv hi ne =
    let n = mosi_len layout in
    let p = n - 2 in
    let moved = take-set_lt n mosi i v hi in
    elim (Bool-cases (accepts layout (set mosi i v))) [
      | inr rejected ↦ rw (rejected, ingest) refl
      | inl accepted ↦ absurd (
          changed-crc (take n mosi) p i v (length-take_le n mosi size ∙ omega arith)
            (take-All n mosi bytes) hv (omega (arith, length-take_le n mosi size))
            (λ q. ne (q ∙ get_or-take n mosi i 0 hi)) (accepts-crc layout mosi ok)
            (subst (λ bs. crc16 (take p bs) ≡ read_le16 bs p) moved
              (accepts-crc layout (set mosi i v) accepted)))
    ]

-- `n` cycles in which no frame of the host comes in.
pub watch : ℕ → HostBridge → HostBridge
watch zero h = h
watch (suc n) h = watch n (tick_watchdog h)

-- The stall count of a silent host is the number of silent cycles, up to 65535.
pub watch-stalled :
    (n : ℕ) (h : HostBridge)
    → h.out_valid ≡ true
    → h.host_wdog ≡ h.last_seen_wdog
    → h.wdog_stall_cycles ≤ 65535
    → (watch n h).wdog_stall_cycles ≡ min (h.wdog_stall_cycles + n) 65535
unfolding watch tick_watchdog
watch-stalled zero h valid same small = omega arith
watch-stalled (suc n) h valid same small =
    let next = record h { wdog_stall_cycles = min (h.wdog_stall_cycles + 1) 65535 } in
    ground (arith, watch-stalled n next valid same)

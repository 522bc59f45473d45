-- ===== src/BlockingScan.antt =====
-- The scan of the bus in one go: src/ethercat/fsm_sii.rs, src/ethercat/fsm_slave_scan.rs and
-- src/ethercat/fsm_master.rs. Every datagram waits for its reply, for `attempts` polls of the NIC.
-- The delays between the polls are no effect.
pub mod Calls
pub mod Found
use rtic_ecmaster.Base.{
  ℕ, zero, suc, ◌+◌, ◌-◌, ◌*◌, ◌/◌, ◌%◌, Bool, true, false, not, ◌&&◌, ◌||◌, Option, none, some,
  List, [], ◌∷◌, ◌++◌, ltb, leb, ◌==◌, if◌then◌else◌, length, take, replicate, byte_at, get_or,
  test_bit, u8, u16, le16, read_le32, Outcome, ok, err, panic, EcError, working_counter_mismatch,
  sii_error, sii_timeout, frame_too_short, too_many_slaves,
}
use rtic_ecmaster.Cyclic.{al_nibble}
use rtic_ecmaster.Cyclic.Send.{al_status_reg}
use rtic_ecmaster.Datagram.{Command, brd, bwr, apwr, fprd, fpwr, Reply, autoinc_adp, build, parse}
use rtic_ecmaster.Device.{Enet, Device, transact}
use rtic_ecmaster.Scan.{
  max_slaves, scan_frame_buf, station_addr_reg, dl_info_reg, sii_control_reg, SiiField, vendor,
  product, revision, rx_mbox, tx_mbox, protocols, sii_word,
}
use rtic_ecmaster.Slave.{SlaveInfo}

abbrev pub sii_poll_attempts : ℕ
sii_poll_attempts = 200

-- `dev: &mut Device` and `index: &mut u8`, with the buffers `tx` and `rx` of the function that runs.
pub record Line (S : Type 0) : Type 0 where
  pub dev : Device S
  pub index : ℕ
  pub tx : List ℕ
  pub rx : List ℕ

-- A call on the line, which ends in a value, an error or a panic.
abbrev pub M : Type 0 → Type 0 → Type 0
M S A = Line S → Line S × Outcome A

unfoldable pub next : {S A B : Type 0} → (A → M S B) → Line S × Outcome A → Line S × Outcome B
next f (l, ok a) = f a l
next f (l, err e) = (l, err e)
next f (l, panic) = (l, panic)

infixl 5 ◌>>=◌ ◌>>◌
abbrev pub ◌>>=◌ : {S A B : Type 0} → M S A → (A → M S B) → M S B
◌>>=◌ m f l = next f (m l)

abbrev pub ◌>>◌ : {S B : Type 0} → M S (Unit {0}) → M S B → M S B
m >> k = m >>= λ _. k

abbrev pub give : {S A : Type 0} → A → M S A
give a l = (l, ok a)

abbrev pub fail : {S A : Type 0} → EcError → M S A
fail e l = (l, err e)

-- `[0u8; EC_SCAN_FRAME_BUF]`, twice. A function that calls another one uses its own buffers no more.
abbrev pub with_buffers : {S A : Type 0} → M S A → M S A
with_buffers m l = m (record l { tx = replicate scan_frame_buf 0; rx = replicate scan_frame_buf 0 })

abbrev pub transacted : {S : Type 0} → Line S → Device S × List ℕ × Outcome ℕ → Line S × Outcome ℕ
transacted l (dev, rx, o) = (record l { dev = dev; rx = rx }, o)

-- `parse(&rx[..len]).ok_or(EcError::FrameTooShort)?`
abbrev pub heard : {S : Type 0} → Line S → Option Reply → Line S × Outcome Reply
heard l (some reply) = (l, ok reply)
heard l none = (l, err frame_too_short)

abbrev pub hear : {S : Type 0} → ℕ → M S Reply
hear n l = heard l (parse (take n l.rx))

-- The answer to a status poll: the value, or another poll.
abbrev pub polled : {S : Type 0} → Reply → M S ℕ → M S ℕ
polled reply again =
    let status = byte_at reply.payload 1 in
    if reply.working_counter == 0 || ltb (length reply.payload) 10
    then again
    else if test_bit status 5
    then fail sii_error
    else if not (test_bit status 7) && not (test_bit status 0)
    then give (read_le32 reply.payload 6)
    else again

-- `if reply.working_counter != 1 { return Err(EcError::WorkingCounter) }`
abbrev pub exactly_one : {S : Type 0} → Reply → M S (Unit {0})
exactly_one reply = if reply.working_counter == 1 then give tt else fail working_counter_mismatch

-- `let mut index = 0u8`; the buffers are those of the functions.
abbrev pub line_new : {S : Type 0} → Device S → Line S
line_new dev = record { dev = dev; index = 0; tx = []; rx = [] }

module _ {S : Type 0} (nic : Enet S) (attempts : ℕ) where
  -- `build`, the next index, and `transact(&tx[..n], &mut rx)`.
  abbrev pub sent : Line S → Option (List ℕ × ℕ) → Line S × Outcome ℕ
  sent l none = (l, panic)
  sent l (some (tx, n)) =
      transacted (record l { tx = tx; index = u8 (l.index + 1) })
        (transact nic attempts l.dev (take n tx) l.rx)

  unfoldable pub transfer : Command → ℕ → ℕ → List ℕ → M S ℕ
  transfer cmd adp ado payload l = sent l (build l.tx l.index cmd adp ado payload)

  unfoldable pub call : Command → ℕ → ℕ → List ℕ → M S Reply
  call cmd adp ado payload = transfer cmd adp ado payload >>= hear

  unfoldable pub sii_poll : ℕ → ℕ → M S ℕ
  sii_poll zero station = fail sii_timeout
  sii_poll (suc polls) station = call fprd station sii_control_reg (replicate 10 0) >>= λ reply.
      polled reply (sii_poll polls station)

  -- `sii_read_u32`
  unfoldable pub sii_read_u32 : ℕ → ℕ → M S ℕ
  sii_read_u32 station word_offset = with_buffers do
    reply ← call fpwr station sii_control_reg (0x80 ∷ 0x01 ∷ le16 word_offset)
    if reply.working_counter == 0
        then fail working_counter_mismatch
        else sii_poll sii_poll_attempts station

  -- `scan_slave`; the ring position is below 32, so that the station address does not overflow.
  abbrev pub identity : ℕ → ℕ → Reply → Reply → M S SlaveInfo
  identity ring_pos station al dl = do
    vendor_id ← sii_read_u32 station (sii_word vendor)
    product_code ← sii_read_u32 station (sii_word product)
    revision_no ← sii_read_u32 station (sii_word revision)
    rx_word ← sii_read_u32 station (sii_word rx_mbox)
    tx_word ← sii_read_u32 station (sii_word tx_mbox)
    proto ← sii_read_u32 station (sii_word protocols)
    give (record {
      ring_pos = ring_pos;
      station_addr = station;
      al_state = al_nibble (get_or al.payload 0 0);
      base_type = get_or dl.payload 0 0;
      base_fmmu_count = get_or dl.payload 4 0;
      base_sync_count = get_or dl.payload 5 0;
      vendor_id = vendor_id;
      product_code = product_code;
      revision = revision_no;
      rx_mbox_offset = u16 rx_word;
      rx_mbox_size = u16 (rx_word / 65536);
      tx_mbox_offset = u16 tx_word;
      tx_mbox_size = u16 (tx_word / 65536);
      mbox_protocols = u16 proto;
      supports_coe = test_bit (u16 proto) 2;
    })

  unfoldable pub scan_slave : ℕ → M S SlaveInfo
  scan_slave ring_pos = with_buffers do
    let station = ring_pos + 1
    assigned ← call apwr (autoinc_adp ring_pos) station_addr_reg (le16 station)
    exactly_one assigned
    al ← call fprd station al_status_reg (replicate 2 0)
    exactly_one al
    dl ← call fprd station dl_info_reg (replicate 12 0)
    exactly_one dl
    identity ring_pos station al dl

  unfoldable pub count_slaves : M S ℕ
  count_slaves =
      with_buffers do reply ← call brd 0 al_status_reg (replicate 2 0); give reply.working_counter

  unfoldable pub clear_addresses : M S (Unit {0})
  clear_addresses = with_buffers do _ ← transfer bwr 0 station_addr_reg (replicate 2 0); give tt

  -- The loop over the ring positions: `left` of them, from `ring_pos`.
  unfoldable pub scan_from : ℕ → ℕ → List SlaveInfo → M S (List SlaveInfo)
  scan_from zero ring_pos slaves = give slaves
  scan_from (suc left) ring_pos slaves =
      if leb max_slaves ring_pos then fail too_many_slaves else (do
        info ← scan_slave ring_pos
        if ltb (length slaves) max_slaves
            then scan_from left (ring_pos + 1) (slaves ++ info ∷ [])
            else fail too_many_slaves)

  -- `scan_bus`, from datagram index 0.
  unfoldable pub scan_bus : Device S → Line S × Outcome (List SlaveInfo)
  scan_bus dev =
      (count_slaves >>= λ count. (clear_addresses >> scan_from count 0 [])) (line_new dev)

-- ===== src/Scan.antt =====
-- src/ethercat/fsm_scan.rs: the scan of the bus, one datagram at a time. The trace lines, which are
-- text for the console, are left out.
pub mod Measure
pub mod Ends
pub mod Published
pub mod Order
use rtic_ecmaster.Base.{
  ℕ, zero, suc, ◌+◌, ◌/◌, ◌++◌, Bool, true, false, not, ◌&&◌, ◌||◌, Option, none, some, List, [],
  ◌∷◌, ltb, leb, ◌==◌, if◌then◌else◌, length, take, replicate, byte_at, get_or, test_bit, u16, le16,
  read_le32, Outcome, ok, err, panic, EcError, working_counter_mismatch, sii_error, sii_timeout,
}
use rtic_ecmaster.Cyclic.{al_nibble}
use rtic_ecmaster.Cyclic.Send.{al_status_reg}
use rtic_ecmaster.Datagram.{Command, brd, bwr, apwr, fprd, fpwr, Reply, autoinc_adp}
use rtic_ecmaster.Device.{Enet, Pump, pump_new, pump_reset}
use rtic_ecmaster.Exchange.{Exchange, Bus, exchange_new, rebuild, single, ask, answer}
use rtic_ecmaster.Exchange.Runs.{is_pending}
use rtic_ecmaster.Slave.{SlaveInfo}

abbrev pub sii_max_polls : ℕ
sii_max_polls = 400

-- Constants of src/ethercat/globals.rs.
abbrev pub max_slaves : ℕ
max_slaves = 32

abbrev pub scan_frame_buf : ℕ
scan_frame_buf = 128

abbrev pub station_addr_reg : ℕ
station_addr_reg = 0x0010

abbrev pub dl_info_reg : ℕ
dl_info_reg = 0x0000

abbrev pub sii_control_reg : ℕ
sii_control_reg = 0x0502

pub data SiiField : Type 0 where
  vendor product revision rx_mbox tx_mbox protocols : SiiField

pub data Stage : Type 0 where
  counting clearing assigning reading_al reading_dl : Stage
  reading_sii : SiiField → Stage
  done : Stage

abbrev pub sii_word : SiiField → ℕ
sii_word vendor = 0x0008
sii_word product = 0x000A
sii_word revision = 0x000C
sii_word rx_mbox = 0x0018
sii_word tx_mbox = 0x001A
sii_word protocols = 0x001C

pub record Cur : Type 0 where
  pub ring_pos : ℕ
  pub station : ℕ
  pub al : ℕ
  pub base_type : ℕ
  pub base_fmmu_count : ℕ
  pub base_sync_count : ℕ
  pub vendor_id : ℕ
  pub product_code : ℕ
  pub revision_no : ℕ
  pub rx_mbox_word : ℕ
  pub tx_mbox_word : ℕ

-- `Cur { ring_pos, station, ..Cur::default() }`
abbrev pub cur_new : ℕ → ℕ → Cur
cur_new ring_pos station = record {
  ring_pos = ring_pos;
  station = station;
  al = 0;
  base_type = 0;
  base_fmmu_count = 0;
  base_sync_count = 0;
  vendor_id = 0;
  product_code = 0;
  revision_no = 0;
  rx_mbox_word = 0;
  tx_mbox_word = 0;
}

pub data SiiPhase : Type 0 where
  commanding polling : SiiPhase

pub record Sii : Type 0 where
  pub phase : SiiPhase
  pub word : ℕ
  pub polls : ℕ
  pub pump : Pump
  pub tx_len : ℕ

-- `Sii::new` and `Sii::reset`
abbrev pub sii_new : Sii
sii_new = record { phase = commanding; word = 0; polls = 0; pump = pump_new; tx_len = 0 }

abbrev pub sii_reset : Sii → ℕ → Sii
sii_reset s word = record s {
  phase = commanding;
  word = word;
  polls = 0;
  pump = pump_reset s.pump;
  tx_len = 0;
}

-- `ScanFsm`; `link` is its pump and buffers.
pub record ScanFsm : Type 0 where
  pub stage : Stage
  pub count : ℕ
  pub link : Exchange
  pub cur : Cur
  pub sii : Sii
  pub completed : Option SlaveInfo

-- `ScanFsm::new`
unfoldable pub new : ScanFsm
new = record {
  stage = counting;
  count = 0;
  link = exchange_new scan_frame_buf scan_frame_buf;
  cur = cur_new 0 0;
  sii = sii_new;
  completed = none;
}

-- `take_completed_slave`
abbrev pub take_completed_slave : ScanFsm → ScanFsm × Option SlaveInfo
take_completed_slave f = (record f { completed = none }, f.completed)

-- `begin_slave`
unfoldable pub begin_slave : ScanFsm → ℕ → ScanFsm
begin_slave f ring_pos = record f {
  cur = cur_new ring_pos (ring_pos + 1);
  link = record f.link { pump = pump_reset f.link.pump; tx_len = 0 };
  stage = assigning;
}

abbrev pub slave_info : Cur → ℕ → Bool → SlaveInfo
slave_info c proto supports_coe = record {
  ring_pos = c.ring_pos;
  station_addr = c.station;
  al_state = c.al;
  base_type = c.base_type;
  base_fmmu_count = c.base_fmmu_count;
  base_sync_count = c.base_sync_count;
  vendor_id = c.vendor_id;
  product_code = c.product_code;
  revision = c.revision_no;
  rx_mbox_offset = u16 c.rx_mbox_word;
  rx_mbox_size = u16 (c.rx_mbox_word / 65536);
  tx_mbox_offset = u16 c.tx_mbox_word;
  tx_mbox_size = u16 (c.tx_mbox_word / 65536);
  mbox_protocols = proto;
  supports_coe = supports_coe;
}

-- `finish_slave`
unfoldable pub finish_slave : ScanFsm → ℕ → Bool → ScanFsm
finish_slave f proto supports_coe =
    let published = record f { completed = some (slave_info f.cur proto supports_coe) } in
    if ltb (f.cur.ring_pos + 1) f.count && ltb (f.cur.ring_pos + 1) max_slaves
    then begin_slave published (f.cur.ring_pos + 1)
    else record published { stage = done }

-- The read of the next field.
abbrev pub read_field : ScanFsm → SiiField → ScanFsm
read_field f field = record f { sii = sii_reset f.sii (sii_word field); stage = reading_sii field }

-- `apply_sii`
unfoldable pub apply_sii : SiiField → ScanFsm → ℕ → ScanFsm
apply_sii vendor f value =
    read_field (record f { cur = record f.cur { vendor_id = value } }) product
apply_sii product f value =
    read_field (record f { cur = record f.cur { product_code = value } }) revision
apply_sii revision f value =
    read_field (record f { cur = record f.cur { revision_no = value } }) rx_mbox
apply_sii rx_mbox f value =
    read_field (record f { cur = record f.cur { rx_mbox_word = value } }) tx_mbox
apply_sii tx_mbox f value =
    read_field (record f { cur = record f.cur { tx_mbox_word = value } }) protocols
apply_sii protocols f value = finish_slave f (u16 value) (test_bit (u16 value) 2)

abbrev pub put : ScanFsm → Exchange → ScanFsm
put f x = record f { link = x }

-- The replies of the stages: the working counter and at most 16 bytes.
unfoldable pub counted : ScanFsm → ℕ → List ℕ → ScanFsm × Outcome Bool
counted f wkc bytes =
    (record f { count = wkc; stage = if wkc == 0 then done else clearing }, ok false)

abbrev pub cleared : ScanFsm → ℕ → List ℕ → ScanFsm × Outcome Bool
cleared f wkc bytes = (begin_slave f 0, ok false)

unfoldable pub assigned : ScanFsm → ℕ → List ℕ → ScanFsm × Outcome Bool
assigned f wkc bytes =
    if wkc == 1
    then (record f { stage = reading_al }, ok false)
    else (f, err working_counter_mismatch)

unfoldable pub al_read : ScanFsm → ℕ → List ℕ → ScanFsm × Outcome Bool
al_read f wkc bytes =
    if wkc == 1
    then (
      record f { cur = record f.cur { al = al_nibble (get_or bytes 0 0) }; stage = reading_dl },
      ok false,
    )
    else (f, err working_counter_mismatch)

unfoldable pub dl_read : ScanFsm → ℕ → List ℕ → ScanFsm × Outcome Bool
dl_read f wkc bytes =
    let known = record f.cur {
      base_type = get_or bytes 0 0;
      base_fmmu_count = get_or bytes 4 0;
      base_sync_count = get_or bytes 5 0;
    } in
    if wkc == 1
    then (read_field (record f { cur = known }) vendor, ok false)
    else (f, err working_counter_mismatch)

-- `pump_reply`, once the reply is there.
abbrev pub on_reply :
    (ScanFsm → ℕ → List ℕ → ScanFsm × Outcome Bool) → ScanFsm → Reply → ScanFsm × Outcome Bool
on_reply handle f reply =
    handle (record f { link = rebuild f.link }) reply.working_counter (take 16 reply.payload)

-- One more status read, up to the limit.
unfoldable pub poll_again : Sii → Sii × Outcome (Option ℕ)
poll_again s = (
  record s { polls = s.polls + 1 },
  if leb sii_max_polls (s.polls + 1) then err sii_timeout else ok none,
)

unfoldable pub sii_commanded : Sii → Reply → Sii × Outcome (Option ℕ)
sii_commanded s reply =
    if reply.working_counter == 0
    then (s, err working_counter_mismatch)
    else (record s { phase = polling; polls = 0; tx_len = 0 }, ok none)

unfoldable pub sii_polled : Sii → Reply → Sii × Outcome (Option ℕ)
sii_polled s reply =
    let s0 = record s { tx_len = 0 } in
    let status = byte_at reply.payload 1 in
    if reply.working_counter == 0 || ltb (length reply.payload) 10
    then poll_again s0
    else if test_bit status 5
    then (s0, err sii_error)
    else if not (test_bit status 7) && not (test_bit status 0)
    then (s0, ok (some (read_le32 reply.payload 6)))
    else poll_again s0

-- The exchange of the reader, which has a pump of its own and the buffers of the scan.
abbrev pub sii_link : ScanFsm → Exchange
sii_link f = record { pump = f.sii.pump; tx = f.link.tx; tx_len = f.sii.tx_len; rx = f.link.rx }

abbrev pub sii_put : ScanFsm → Exchange → ScanFsm
sii_put f x = record f {
  sii = record f.sii { pump = x.pump; tx_len = x.tx_len };
  link = record f.link { tx = x.tx; rx = x.rx };
}

-- What the stage makes of the reader's answer.
abbrev pub with_value : SiiField → ScanFsm → Outcome (Option ℕ) → ScanFsm × Outcome Bool
with_value field f (ok none) = (f, ok false)
with_value field f (ok (some value)) = (apply_sii field f value, ok false)
with_value field f (err e) = (f, err e)
with_value field f panic = (f, panic)

abbrev pub sii_reply :
    SiiField → (Sii → Reply → Sii × Outcome (Option ℕ)) → ScanFsm → Reply → ScanFsm × Outcome Bool
sii_reply field handle f reply =
    let (s, o) = handle f.sii reply in with_value field (record f { sii = s }) o

-- `let _ = self.slaves.push(slave)` of `Master::drive`, for the slave of a step, if any.
abbrev pub push_slave : List SlaveInfo → Option SlaveInfo → List SlaveInfo
push_slave slaves none = slaves
push_slave slaves (some slave) =
    if ltb (length slaves) max_slaves then slaves ++ (slave ∷ []) else slaves

-- The drain; an error of the step leaves it out.
abbrev pub drain : Outcome Bool → ScanFsm → List SlaveInfo → ScanFsm × List SlaveInfo
drain (ok _) f slaves = (record f { completed = none }, push_slave slaves f.completed)
drain (err e) f slaves = (f, slaves)
drain panic f slaves = (f, slaves)

module _ {S : Type 0} (nic : Enet S) where
  -- `step_simple` and `step_write`
  abbrev pub talk :
      ScanFsm
      → Bus S
      → Command
      → ℕ
      → ℕ
      → List ℕ
      → (ScanFsm → ℕ → List ℕ → ScanFsm × Outcome Bool)
      → ScanFsm × Bus S × Outcome Bool
  talk f bus cmd adp ado payload handle =
      answer (ask nic (single cmd adp ado payload) f.link bus) (put f) false (on_reply handle)

  -- `Sii::step` in the given phase.
  unfoldable pub sii_step : SiiPhase → SiiField → ScanFsm → Bus S → ScanFsm × Bus S × Outcome Bool
  sii_step commanding field f bus =
      answer
        (ask nic (single fpwr f.cur.station sii_control_reg (0x80 ∷ 0x01 ∷ le16 f.sii.word))
          (sii_link f) bus)
        (sii_put f) false (sii_reply field sii_commanded)
  sii_step polling field f bus =
      answer (ask nic (single fprd f.cur.station sii_control_reg (replicate 10 0)) (sii_link f) bus)
        (sii_put f) false (sii_reply field sii_polled)

  -- `step` in the given stage; `true` is `ScanStep::Done`.
  unfoldable pub step_in : Stage → ScanFsm → Bus S → ScanFsm × Bus S × Outcome Bool
  step_in counting f bus = talk f bus brd 0x0000 al_status_reg (replicate 2 0) counted
  step_in clearing f bus = talk f bus bwr 0x0000 station_addr_reg (replicate 2 0) cleared
  step_in assigning f bus =
      talk f bus apwr (autoinc_adp f.cur.ring_pos) station_addr_reg (le16 f.cur.station) assigned
  step_in reading_al f bus = talk f bus fprd f.cur.station al_status_reg (replicate 2 0) al_read
  step_in reading_dl f bus = talk f bus fprd f.cur.station dl_info_reg (replicate 12 0) dl_read
  step_in (reading_sii field) f bus = sii_step f.sii.phase field f bus
  step_in done f bus = (f, bus, ok true)

  -- `step`
  unfoldable pub step : ScanFsm → Bus S → ScanFsm × Bus S × Outcome Bool
  step f bus = step_in f.stage f bus

  -- `ScanFsm::step` and the drain of `Master::drive`, for at most `rounds` calls: the scan's slaves
  -- and its answer.
  unfoldable pub collect :
      ℕ → ScanFsm → Bus S → List SlaveInfo → ScanFsm × List SlaveInfo × Outcome Bool
  collect zero f bus slaves = (f, slaves, ok false)
  collect (suc rounds) f bus slaves =
      let (f', bus', o) = step f bus in
      let (drained, more) = drain o f' slaves in
      let rest = collect rounds drained bus' more in
      if is_pending o then rest else (drained, more, o)

-- ===== src/Coe.antt =====
-- src/ethercat/fsm_coe.rs: expedited SDO transfers over the CoE mailbox of one slave.
pub mod Seq
pub mod Ends
pub mod Responses
use rtic_ecmaster.Base.{
  ℕ, ◌+◌, ◌-◌, ◌*◌, ◌/◌, ◌%◌, min, max, Bool, true, false, not, ◌&&◌, Option, none, some, List, [],
  ◌∷◌, ◌++◌, ltb, leb, ◌==◌, if◌then◌else◌, length, take, replicate, slice, overwrite, byte_at,
  test_bit, le16, read_le32, Outcome, ok, err, panic, EcError, working_counter_mismatch,
  mailbox_timeout, mailbox_protocol, sdo_abort,
}
use rtic_ecmaster.Datagram.{Command, fpwr, fprd, Reply}
use rtic_ecmaster.Device.{Enet}
use rtic_ecmaster.Exchange.{Exchange, Bus, exchange_new, rebuild, single, ask, answer}
use rtic_ecmaster.Mailbox.{Header, type_coe, write_header, parse_header}
use rtic_ecmaster.Slave.{Mailbox}

abbrev pub max_mbox_waits : ℕ
max_mbox_waits = 1000

abbrev pub max_mbox_read : ℕ
max_mbox_read = 256

abbrev pub max_mbox_write : ℕ
max_mbox_write = 256

abbrev pub sm1_status_reg : ℕ
sm1_status_reg = 0x080D

pub data SdoKind : Type 0 where
  download upload : SdoKind

pub data State : Type 0 where
  write_request wait_mailbox read_response done : State

-- `FsmCoe`; `link` is its pump and buffers.
pub record FsmCoe : Type 0 where
  pub mbox : Mailbox
  pub kind : SdoKind
  pub index : ℕ
  pub subindex : ℕ
  pub req_data : List ℕ
  pub req_len : ℕ
  pub state : State
  pub link : Exchange
  pub result : List ℕ
  pub result_len : ℕ
  pub waits : ℕ

-- `FsmCoe::new`
unfoldable pub new : Mailbox → SdoKind → ℕ → ℕ → List ℕ → ℕ → FsmCoe
new mbox kind index subindex req_data req_len = record {
  mbox = mbox;
  kind = kind;
  index = index;
  subindex = subindex;
  req_data = req_data;
  req_len = req_len;
  state = write_request;
  link = exchange_new 320 320;
  result = replicate 4 0;
  result_len = 0;
  waits = 0;
}

-- The first four bytes of the data, filled up with zeros.
abbrev pub four_bytes : List ℕ → List ℕ
four_bytes bytes = overwrite (replicate 4 0) 0 (take (min (length bytes) 4) bytes)

-- `FsmCoe::download` and `FsmCoe::upload`
abbrev pub new_download : Mailbox → ℕ → ℕ → List ℕ → FsmCoe
new_download mbox index subindex bytes =
    new mbox download index subindex (four_bytes bytes) (min (length bytes) 4)

abbrev pub new_upload : Mailbox → ℕ → ℕ → FsmCoe
new_upload mbox index subindex = new mbox upload index subindex (replicate 4 0) 0

-- `response`
abbrev pub response : FsmCoe → List ℕ
response f = take f.result_len f.result

-- The SDO command byte and the data of `build_request`.
abbrev pub sdo_command : SdoKind → ℕ → ℕ
sdo_command download req_len = 0x23 + 4 * (4 - min req_len 4)
sdo_command upload req_len = 0x40

abbrev pub sdo_data : SdoKind → List ℕ → List ℕ
sdo_data download req_data = req_data
sdo_data upload req_data = replicate 4 0

-- `build_request`; the CoE header is `mbox::COE_SDO_REQUEST << 12`.
unfoldable pub build_request : FsmCoe → List ℕ
build_request f =
    write_header 10 type_coe 0
    ++ (le16 0x2000
        ++ (sdo_command f.kind f.req_len
            ∷ (le16 f.index ++ (f.subindex ∷ sdo_data f.kind f.req_data))))

-- The answer of a slave behind its mailbox header.
unfoldable pub parse_sdo : SdoKind → List ℕ → Outcome (List ℕ × ℕ)
parse_sdo kind bytes =
    let cmd = byte_at bytes 8 in
    let size = min (4 - cmd / 4 % 4) 4 in
    let uploaded : Outcome (List ℕ × ℕ) =
      if not (test_bit cmd 1)
      then err mailbox_protocol
      else ok (overwrite (replicate 4 0) 0 (slice 12 (12 + size) bytes), size) in
    if ltb (length bytes) 16
    then err mailbox_protocol
    else if cmd / 32 % 8 == 4
    then err (sdo_abort (read_le32 bytes 12))
    else elim kind [ download ↦ ok (replicate 4 0, 0) | upload ↦ uploaded ]

-- `parse_sdo_response`
unfoldable pub parse_sdo_response : SdoKind → List ℕ → Outcome (List ℕ × ℕ)
parse_sdo_response kind bytes = elim (parse_header bytes) [
  | none ↦ err mailbox_protocol
  | some header ↦
      if header.mbox_type == type_coe then parse_sdo kind bytes else err mailbox_protocol
]

abbrev pub put : FsmCoe → Exchange → FsmCoe
put f x = record f { link = x }

-- `x.clamp(lo, hi)`
abbrev pub clamp : ℕ → ℕ → ℕ → ℕ
clamp x lo hi = min (max x lo) hi

-- The request in the whole configured mailbox, zeros behind it.
abbrev pub request_bytes : FsmCoe → List ℕ
request_bytes f = take (clamp f.mbox.rx_size 16 max_mbox_write) (build_request f ++ replicate 240 0)

-- The reply to the request.
unfoldable pub requested : FsmCoe → Reply → FsmCoe × Outcome Bool
requested f reply =
    if reply.working_counter == 1
    then (record f { state = wait_mailbox; link = rebuild f.link; waits = 0 }, ok false)
    else (f, err working_counter_mismatch)

-- The reply to the read of the mailbox status.
unfoldable pub mailbox_seen : FsmCoe → Reply → FsmCoe × Outcome Bool
mailbox_seen f reply =
    let full = reply.working_counter == 1 && test_bit (byte_at reply.payload 0) 3 in
    let again = record f { link = rebuild f.link; waits = f.waits + 1 } in
    if full
    then (record f { link = rebuild f.link; state = read_response }, ok false)
    else (again, if leb max_mbox_waits (f.waits + 1) then err mailbox_timeout else ok false)

-- The reply with the mailbox.
unfoldable pub responded : FsmCoe → Reply → FsmCoe × Outcome Bool
responded f reply =
    let taken : FsmCoe × Outcome Bool = elim (parse_sdo_response f.kind reply.payload) [
      | ok (result, result_len) ↦
          (record f { result = result; result_len = result_len; state = done }, ok true)
      | err e ↦ (f, err e)
      | panic ↦ (f, panic)
    ] in
    if reply.working_counter == 1 then taken else (f, err working_counter_mismatch)

module _ {S : Type 0} (nic : Enet S) where
  abbrev pub talk :
      FsmCoe
      → Bus S
      → Command
      → ℕ
      → List ℕ
      → (FsmCoe → Reply → FsmCoe × Outcome Bool)
      → FsmCoe × Bus S × Outcome Bool
  talk f bus cmd ado payload handle =
      answer (ask nic (single cmd f.mbox.station_addr ado payload) f.link bus) (put f) false handle

  -- `step` in the given state.
  unfoldable pub step_in : State → FsmCoe → Bus S → FsmCoe × Bus S × Outcome Bool
  step_in write_request f bus = talk f bus fpwr f.mbox.rx_offset (request_bytes f) requested
  step_in wait_mailbox f bus = talk f bus fprd sm1_status_reg (0 ∷ []) mailbox_seen
  step_in read_response f bus =
      talk f bus fprd f.mbox.tx_offset (replicate (clamp f.mbox.tx_size 16 max_mbox_read) 0)
        responded
  step_in done f bus = (f, bus, ok true)

  -- `step`
  unfoldable pub step : FsmCoe → Bus S → FsmCoe × Bus S × Outcome Bool
  step f bus = step_in f.state f bus

-- ===== src/Modbus.antt =====
-- src/modbus/modbus_slave.rs and register_map.rs: the Modbus TCP holding registers. The firmware is
-- built in release, where an address past 0xFFFF wraps.
pub mod Registers
pub mod Responses
use rtic_ecmaster.Base.{
  ℕ, zero, suc, ◌+◌, ◌-◌, ◌*◌, ◌/◌, ◌%◌, Bool, true, false, ◌&&◌, ◌||◌, not, Option, none, some,
  List, [], ◌∷◌, ◌++◌, ltb, leb, ◌==◌, if◌then◌else◌, length, byte_at, be16, read_be16, set_bit, u8,
  u16,
}

abbrev pub max_regs : ℕ
max_regs = 32

abbrev pub max_frame : ℕ
max_frame = 260

-- `Register`
pub record Register : Type 0 where
  pub address : ℕ
  pub value : ℕ

-- `ModbusSlave`: `registers[..register_count]`.
abbrev pub ModbusSlave : Type 0
ModbusSlave = List Register

-- `ModbusSlave::new`
abbrev new : ModbusSlave
new = []

-- The value that `find` finds, if any.
unfoldable pub find : ModbusSlave → ℕ → Option Register
find [] address = none
find (r ∷ rs) address = let rest = find rs address in if r.address == address then some r else rest

-- The write through `find_mut`: nothing where there is no such register.
unfoldable pub update : ModbusSlave → ℕ → ℕ → ModbusSlave
update [] address value = []
update (r ∷ rs) address value =
    let rest = update rs address value in
    if r.address == address then record r { value = value } ∷ rs else r ∷ rest

-- `add_hreg`
unfoldable pub add_hreg : ModbusSlave → ℕ → ℕ → ModbusSlave
add_hreg rs address value =
    let full_or_added : ModbusSlave =
      if ltb (length rs) max_regs
      then rs ++ (record { address = address; value = value } ∷ [])
      else rs in
    elim (find rs address) [ some _ ↦ update rs address value | none ↦ full_or_added ]

-- `load_register_map`, over the addresses and defaults of the definitions.
unfoldable pub load_register_map : ModbusSlave → List Register → ModbusSlave
load_register_map rs [] = rs
load_register_map rs (d ∷ ds) = load_register_map (add_hreg rs d.address d.value) ds

-- `get_hreg`
unfoldable pub get_hreg : ModbusSlave → ℕ → ℕ
get_hreg rs address = elim (find rs address) [ none ↦ 0 | some r ↦ r.value ]

-- `set_hreg`, with its answer.
unfoldable pub set_hreg : ModbusSlave → ℕ → ℕ → ModbusSlave × Bool
set_hreg rs address value = elim (find rs address) [
  | none ↦ (rs, false)
  | some _ ↦ (update rs address value, true)
]

-- `NetworkConfig`
pub record NetworkConfig : Type 0 where
  pub ip : List ℕ
  pub subnet : List ℕ
  pub gateway : List ℕ

-- `ip_from_registers`
abbrev pub ip_from_registers : ModbusSlave → ℕ → ℕ → ℕ → ℕ → List ℕ
ip_from_registers rs a b c d =
    u8 (get_hreg rs a) ∷ u8 (get_hreg rs b) ∷ u8 (get_hreg rs c) ∷ u8 (get_hreg rs d) ∷ []

-- `network_config`, at the addresses of register_map.rs.
unfoldable pub network_config : ModbusSlave → NetworkConfig
network_config rs = record {
  ip = ip_from_registers rs 0x0000 0x0002 0x0004 0x0006;
  subnet = ip_from_registers rs 0x0008 0x000A 0x000C 0x000E;
  gateway = ip_from_registers rs 0x0010 0x0012 0x0014 0x0016;
}

abbrev pub reg_apply_network : ℕ
reg_apply_network = 0x0018

-- `take_network_update`
unfoldable pub take_network_update : ModbusSlave → ModbusSlave × Option NetworkConfig
take_network_update rs =
    let rs' = (set_hreg rs reg_apply_network 0).0 in
    if get_hreg rs reg_apply_network == 0 then (rs, none) else (rs', some (network_config rs'))

-- `let _ = vec.push(b)` and `push_u16`: a write that does not fit is dropped.
abbrev pub push_u8 : List ℕ → ℕ → List ℕ
push_u8 vec b = if leb (length vec + 1) max_frame then vec ++ (b ∷ []) else vec

abbrev pub push_u16 : List ℕ → ℕ → List ℕ
push_u16 vec v = if leb (length vec + 2) max_frame then vec ++ be16 v else vec

-- `header`
abbrev pub header : ℕ → ℕ → ℕ → List ℕ
header transaction_id unit_id len =
    push_u8 (push_u16 (push_u16 (push_u16 [] transaction_id) 0) len) unit_id

-- `exception`
abbrev pub exception : ℕ → ℕ → ℕ → ℕ → List ℕ
exception transaction_id unit_id function_code code =
    push_u8 (push_u8 (header transaction_id unit_id 3) (set_bit function_code 7)) code

-- The loop of `read_holding`, over the registers left from the address on.
unfoldable pub push_registers : ModbusSlave → ℕ → ℕ → List ℕ → List ℕ
push_registers rs zero address response = response
push_registers rs (suc left) address response =
    push_registers rs left (u16 (address + 1)) (push_u16 response (get_hreg rs address))

-- `read_holding`
unfoldable pub read_holding : ModbusSlave → List ℕ → ℕ → ℕ → List ℕ
read_holding rs frame transaction_id unit_id =
    let start = read_be16 frame 8 in
    let quantity = read_be16 frame 10 in
    let data_bytes = quantity * 2 in
    let head =
      push_u8 (push_u8 (header transaction_id unit_id (u16 (3 + data_bytes))) 3) (u8 data_bytes) in
    if ltb (length frame) 12
    then exception transaction_id unit_id 3 3
    else if quantity == 0 || ltb max_frame (data_bytes + 9)
    then exception transaction_id unit_id 3 3
    else push_registers rs quantity start head

-- `write_single`
unfoldable pub write_single : ModbusSlave → List ℕ → ℕ → ℕ → ModbusSlave × List ℕ
write_single rs frame transaction_id unit_id =
    let address = read_be16 frame 8 in
    let value = read_be16 frame 10 in
    if ltb (length frame) 12 then (rs, exception transaction_id unit_id 6 3) else (
      (set_hreg rs address value).0,
      push_u16 (push_u16 (push_u8 (header transaction_id unit_id 6) 6) address) value,
    )

-- The loop of `write_multiple`, over the registers left.
unfoldable pub write_registers : ModbusSlave → ℕ → ℕ → List ℕ → ℕ → ModbusSlave
write_registers rs zero address frame offset = rs
write_registers rs (suc left) address frame offset =
    write_registers (set_hreg rs address (read_be16 frame offset)).0 left (u16 (address + 1)) frame
      (offset + 2)

-- `write_multiple`
unfoldable pub write_multiple : ModbusSlave → List ℕ → ℕ → ℕ → ModbusSlave × List ℕ
write_multiple rs frame transaction_id unit_id =
    let start = read_be16 frame 8 in
    let quantity = read_be16 frame 10 in
    let byte_count = byte_at frame 12 in
    if ltb (length frame) 13
    then (rs, exception transaction_id unit_id 0x10 3)
    else if quantity == 0
        || not (byte_count == quantity * 2)
        || ltb (length frame) (13 + byte_count)
    then (rs, exception transaction_id unit_id 0x10 3)
    else (
      write_registers rs quantity start frame 13,
      push_u16 (push_u16 (push_u8 (header transaction_id unit_id 6) 0x10) start) quantity,
    )

-- `process_frame`
unfoldable pub process_frame : ModbusSlave → List ℕ → ModbusSlave × Option (List ℕ)
process_frame rs frame =
    let transaction_id = read_be16 frame 0 in
    let unit_id = byte_at frame 6 in
    let function_code = byte_at frame 7 in
    let single = write_single rs frame transaction_id unit_id in
    let multiple = write_multiple rs frame transaction_id unit_id in
    if ltb (length frame) 8
    then (rs, none)
    else if function_code == 3
    then (rs, some (read_holding rs frame transaction_id unit_id))
    else if function_code == 6
    then (single.0, some single.1)
    else if function_code == 0x10
    then (multiple.0, some multiple.1)
    else (rs, some (exception transaction_id unit_id function_code 1))

-- ===== src/W5500/Sockets.antt =====
-- src/net/w5500_spi.rs: the set-up of the chip, its status, and the polls of its two sockets.
pub mod Steady
use rtic_ecmaster.Base.{
  ℕ, zero, suc, ◌+◌, ◌%◌, Bool, true, false, ◌||◌, Option, none, some, List, [], ◌∷◌, ltb, leb,
  ◌==◌, if◌then◌else◌, length, take, min, be16, byte_at, read_be16, u16,
}
use rtic_ecmaster.Modbus.{ModbusSlave, NetworkConfig, process_frame}
use rtic_ecmaster.W5500.{
  Spi, Answer, done, panicked, Io, next, ◌>>=◌, ◌>>◌, give, read_into, write, read_u8, read_u16,
  write_u8, write_u16, write_buffer, read_buffer,
}
use rtic_ecmaster.W5500.Packets.{make_icmp_echo_reply}

-- The blocks of the chip.
abbrev pub common_block : ℕ
common_block = 0x00

abbrev pub socket0_block : ℕ
socket0_block = 0x01

abbrev pub socket0_tx_block : ℕ
socket0_tx_block = 0x02

abbrev pub socket0_rx_block : ℕ
socket0_rx_block = 0x03

abbrev pub socket1_block : ℕ
socket1_block = 0x05

abbrev pub socket1_tx_block : ℕ
socket1_tx_block = 0x06

abbrev pub socket1_rx_block : ℕ
socket1_rx_block = 0x07

abbrev pub max_icmp_packet : ℕ
max_icmp_packet = 128

abbrev pub max_modbus_tcp_frame : ℕ
max_modbus_tcp_frame = 260

-- `W5500Config` and `W5500Status`
pub record W5500Config : Type 0 where
  pub mac : List ℕ
  pub network : NetworkConfig
  pub modbus_port : ℕ

pub record W5500Status : Type 0 where
  pub spi_ok : Bool
  pub version : ℕ
  pub chip_detected : Bool
  pub phy_config : ℕ
  pub mode : ℕ
  pub mac : List ℕ
  pub network : NetworkConfig
  pub link_up : Bool
  pub socket0_status : ℕ
  pub socket0_rx_size : ℕ
  pub socket1_status : ℕ
  pub socket1_rx_size : ℕ
  pub interrupt_asserted : Bool

-- `&mut buffer[..len]` of a buffer of `size` bytes, which panics past its end.
abbrev pub within : {S A : Type 0} → ℕ → ℕ → Io S A → Io S A
within size len rest = if leb len size then rest else (λ s. (s, panicked))

module _ {S : Type 0} (spi : Spi S) where
  -- The polls of `wait_socket_command_clear`, of `wait_socket_status` and of `wait_tx_capacity`.
  unfoldable pub command_clear : ℕ → ℕ → Io S (Unit {0})
  command_clear zero block = give tt
  command_clear (suc polls) block = read_u8 spi block 0x0001 >>= λ command.
      (if command == 0 then give tt else command_clear polls block)

  unfoldable pub status_seen : ℕ → ℕ → ℕ → ℕ → Io S ℕ
  status_seen zero block expected status = give status
  status_seen (suc polls) block expected status = read_u8 spi block 0x0003 >>= λ status'.
      (if status' == expected || status' == 0x14 || status' == 0x17
        then give status'
        else status_seen polls block expected status')

  unfoldable pub tx_capacity : ℕ → ℕ → ℕ → Io S (Unit {0})
  tx_capacity zero block len = give tt
  tx_capacity (suc polls) block len = read_u16 spi block 0x0020 >>= λ free.
      (if leb len free then give tt else tx_capacity polls block len)

  abbrev pub wait_socket_command_clear : ℕ → Io S (Unit {0})
  wait_socket_command_clear block = command_clear 256 block

  abbrev pub wait_socket_status : ℕ → ℕ → Io S ℕ
  wait_socket_status block expected = status_seen 512 block expected 0x00

  -- A command, and the wait until the chip has taken it.
  abbrev pub commanded : ℕ → ℕ → Io S (Unit {0})
  commanded block command = write_u8 spi block 0x0001 command >> wait_socket_command_clear block

  unfoldable pub configure_phy_100_full_duplex : Io S (Unit {0})
  configure_phy_100_full_duplex =
      write_u8 spi common_block 0x002E 0x58 >> write_u8 spi common_block 0x002E 0xD8

  unfoldable pub configure_socket0_listener : ℕ → Io S (Unit {0})
  configure_socket0_listener port = do
    write_u8 spi socket0_block 0x001E 2
    write_u8 spi socket0_block 0x001F 2
    write_u8 spi socket0_block 0x0000 0x01
    write_u16 spi socket0_block 0x0004 port
    commanded socket0_block 0x01
    status ← wait_socket_status socket0_block 0x13
    if status == 0x13
        then commanded socket0_block 0x02
          >> (wait_socket_status socket0_block 0x14 >>= λ _. give tt)
        else give tt

  unfoldable pub configure_socket1_icmp : Io S (Unit {0})
  configure_socket1_icmp = do
    commanded socket1_block 0x10
    write_u8 spi socket1_block 0x001E 2
    write_u8 spi socket1_block 0x001F 2
    write_u8 spi socket1_block 0x0000 0x03
    commanded socket1_block 0x01
    _ ← wait_socket_status socket1_block 0x32
    give tt

  unfoldable pub status_from_reads : ℕ → Bool → Io S W5500Status
  status_from_reads version chip_detected = do
    phy_config ← read_u8 spi common_block 0x002E
    mode ← read_u8 spi common_block 0x0000
    gateway ← read_into spi common_block 0x0001 4
    subnet ← read_into spi common_block 0x0005 4
    mac ← read_into spi common_block 0x0009 6
    ip ← read_into spi common_block 0x000F 4
    status0 ← read_u8 spi socket0_block 0x0003
    size0 ← read_u16 spi socket0_block 0x0026
    status1 ← read_u8 spi socket1_block 0x0003
    size1 ← read_u16 spi socket1_block 0x0026
    give (record {
      spi_ok = true;
      version = version;
      chip_detected = chip_detected;
      phy_config = phy_config;
      mode = mode;
      mac = mac;
      network = record { ip = ip; subnet = subnet; gateway = gateway };
      link_up = phy_config % 2 == 1;
      socket0_status = status0;
      socket0_rx_size = size0;
      socket1_status = status1;
      socket1_rx_size = size1;
      interrupt_asserted = false;
    })

  -- `W5500Interface::bring_up`
  unfoldable pub bring_up : W5500Config → Io S W5500Status
  bring_up config = do
    version ← read_u8 spi common_block 0x0039
    if version == 0x04
        then (do
          write_u8 spi common_block 0x0000 0
          write spi common_block 0x0001 config.network.gateway
          write spi common_block 0x0005 config.network.subnet
          write spi common_block 0x0009 config.mac
          write spi common_block 0x000F config.network.ip
          configure_phy_100_full_duplex
          configure_socket0_listener config.modbus_port
          status_from_reads version true)
        else status_from_reads version false

  unfoldable pub skip_socket_rx : ℕ → ℕ → ℕ → Io S (Unit {0})
  skip_socket_rx block rx_read len =
      write_u16 spi block 0x0028 (u16 (rx_read + u16 len)) >> commanded block 0x40

  unfoldable pub send_ipraw : List ℕ → List ℕ → Io S (Unit {0})
  send_ipraw destination packet = do
    tx_capacity 512 socket1_block (length packet)
    tx_write ← read_u16 spi socket1_block 0x0024
    write_buffer spi socket1_tx_block tx_write packet
    write_u16 spi socket1_block 0x0024 (u16 (tx_write + u16 (length packet)))
    write spi socket1_block 0x000C destination
    commanded socket1_block 0x20

  unfoldable pub send_tcp : List ℕ → Io S (Unit {0})
  send_tcp packet = do
    tx_capacity 512 socket0_block (length packet)
    tx_write ← read_u16 spi socket0_block 0x0024
    write_buffer spi socket0_tx_block tx_write packet
    write_u16 spi socket0_block 0x0024 (u16 (tx_write + u16 (length packet)))
    commanded socket0_block 0x20

  abbrev pub echoed : List ℕ → Option (List ℕ) → Io S Bool
  echoed source none = give false
  echoed source (some reply) = send_ipraw source reply >> give true

  unfoldable pub poll_icmp_echo : Io S Bool
  poll_icmp_echo = do
    status ← read_u8 spi socket1_block 0x0003
    if status == 0x32
        then (do
          received ← read_u16 spi socket1_block 0x0026
          if ltb received 6 then give false else (do
            rx_read ← read_u16 spi socket1_block 0x0028
            header ← read_buffer spi socket1_rx_block rx_read 6
            let packet_len = read_be16 header 4
            if ltb max_icmp_packet packet_len
                then skip_socket_rx socket1_block rx_read (6 + packet_len) >> give false
                else (do
                  packet ←
                      within max_icmp_packet packet_len
                        (read_buffer spi socket1_rx_block (u16 (rx_read + 6)) packet_len)
                  skip_socket_rx socket1_block rx_read (6 + packet_len)
                  echoed (take 4 header) (make_icmp_echo_reply packet))))
        else configure_socket1_icmp >> give false

  -- The registers after the request, and whether a response was sent.
  abbrev pub responded : ModbusSlave × Option (List ℕ) → Io S (ModbusSlave × Bool)
  responded (modbus, none) = give (modbus, false)
  responded (modbus, some response) = send_tcp response >> give (modbus, true)

  abbrev pub served : ModbusSlave → Io S (ModbusSlave × Bool)
  served modbus = do
    received ← read_u16 spi socket0_block 0x0026
    if ltb received 8 then give (modbus, false) else (do
      let frame_len = min received max_modbus_tcp_frame
      rx_read ← read_u16 spi socket0_block 0x0028
      request ←
          within max_modbus_tcp_frame frame_len (read_buffer spi socket0_rx_block rx_read frame_len)
      skip_socket_rx socket0_block rx_read frame_len
      responded (process_frame modbus request))

  unfoldable pub poll_modbus_tcp : ModbusSlave → ℕ → Io S (ModbusSlave × Bool)
  poll_modbus_tcp modbus port = do
    status ← read_u8 spi socket0_block 0x0003
    if status == 0x17
        then served modbus
        else if status == 0x1C
        then commanded socket0_block 0x08 >> give (modbus, false)
        else if status == 0x00
        then configure_socket0_listener port >> give (modbus, false)
        else give (modbus, false)

-- ===== src/Lib.antt =====
-- RTIC-ECMaster: a model of the EtherCAT master of the firmware, and proofs about it.
--
-- The program. A Teensy 4.1 runs one EtherCAT bus. Every cycle the engine (ethercat/cyclic.rs) reads
-- the reply of the last cycle, hands its process data to the domain (ethercat/domain.rs), follows the
-- phase of the bus (priming, requesting OP, operational, faulted), and sends one frame: an LRW
-- datagram of the whole image and up to two more datagrams. Frames are written and read by
-- ethercat/datagram.rs and go through the NIC link of ethercat/device.rs. With a host attached the
-- tick also takes the host's outputs from the bridge (hal/host_bridge.rs) and the motion ring
-- (hal/motion_buffer.rs), lets the CiA 402 sequencer (ethercat/cia402.rs) write the controlwords into
-- the image through hal/process_data.rs, and stages the reply to the host. Modbus requests over
-- Ethernet are answered by modbus/modbus_slave.rs; net/w5500_spi.rs carries them, over the SPI bus to
-- a network chip.
-- The master (ethercat/master.rs) takes requests: a scan of the bus, a change of a slave's state, an
-- SDO transfer, the start and the stop of the cycles. A start brings up every slave
-- (ethercat/fsm_slave_config.rs) by smaller state machines, each of which sends one frame at a time:
-- the change of the AL state, SDO transfers over the mailbox, the distributed clock, and writes of
-- sync manager and FMMU pages.
--
-- At the first scan the bus may also be read in one go (ethercat/fsm_master.rs). An operator types
-- commands on a serial console (main.rs): usb_isr gathers a line, ethercat/cli.rs parses it, the
-- worker turns it into a request to the master and drives it to its end, and the answer goes back in
-- USB packets. `start` also sets the period of the cyclic timer (board/cycle_timer.rs).
--
-- The files. Paths of the source are below src/ of the repository.
--   Base          tests, lists, words, bits, results: what the other files share
--   Datagram      ethercat/datagram.rs: build, append, parse, parse_at; Wire is the wire format
--   Domain        ethercat/domain.rs: from_config, build_lrw, apply_reply
--   Device        ethercat/device.rs: send, poll, pump, transact
--   Cyclic        ethercat/cyclic.rs: process and receive; Send has the frames and the tick, Host
--                 the tick with the host bridge
--   Cia402        ethercat/cia402.rs: discovery, next_controlword, step
--   Motion        hal/motion_buffer.rs: push, pop, payload; Queue is its specification
--   ProcessData   hal/process_data.rs: read_value, write_value
--   HostBridge    hal/host_bridge.rs: crc16, ingest, apply_outputs, tick_watchdog, build_reply
--   Config        ethercat/config/model.rs, parts of ethercat/ecrt.rs and hal/pin.rs
--   Modbus        modbus/modbus_slave.rs and modbus/register_map.rs
--   Exchange      the exchange of one frame that the state machines of ethercat share (build, pump,
--                 parse), as the method poll of ethercat/dc.rs has it; Runs has runs of a machine
--   Change        ethercat/fsm_change.rs: the change of the AL state
--   Slave         ethercat/slave.rs
--   Mailbox       ethercat/mailbox.rs
--   Coe           ethercat/fsm_coe.rs: an SDO transfer; Seq has the sequences of downloads, with
--                 ethercat/fsm_pdo.rs and ethercat/fsm_pdo_entry.rs
--   Sync          ethercat/sync.rs; FmmuConfig is ethercat/fmmu_config.rs
--   Dc            ethercat/dc.rs: offset, delay and SYNC0 of one slave
--   SlaveConfig   ethercat/fsm_slave_config.rs: the bring-up of one slave
--   Scan          ethercat/fsm_scan.rs: the scan of the bus and the reader of the SII
--   BlockingScan  ethercat/fsm_master.rs, ethercat/fsm_slave_scan.rs and ethercat/fsm_sii.rs
--   Master        ethercat/master.rs: requests and operations; Pre, Bring and Down are its sequences
--                 PreOp, ConfigSeq and DownSeq
--   Cli           ethercat/cli.rs: Parse has the commands, Numbers the numbers, Format the text of a
--                 value, Text the methods of `str`
--   Console       main.rs: the typed line, the commands as requests; Output is EcatOut
--   CycleTimer    board/cycle_timer.rs: load_value, actual_hz
--   W5500         net/w5500_spi.rs: frames and buffers; Packets is the echo reply, Sockets the polls
--   Examples      runs on concrete inputs
--
-- The state. A struct is a record with the same fields, an enum a data type with the same variants,
-- and a method a function from the state to the new state and its answer. Numbers are natural
-- numbers; a cast or a wrapping operation is written as a remainder, a saturating one with its limit.
-- The fields pump, tx, tx_len and rx of a state machine are one record, Exchange; the match on its
-- state is the function step_in, and the code behind a reply is a handler that step_in names.
-- A signed value of the image is its 64-bit two's complement. Buffers are lists of bytes. An access
-- past a buffer or an index past a table, a panic in the source, is `none`, and in W5500 `panicked`.
--
-- Bounds. The walk of `append` over a frame runs on the length of the buffer, since every round moves
-- at least 12 bytes and a read past the buffer ends it; the padding loop runs on 46, the size it pads
-- to; the loop of `pop` runs on the fill of the ring, which falls by one in each round; the loop
-- over the slaves short of OP runs on the number of slaves. A run of a state machine takes as many
-- steps as the theorem about it says: a measure of the machine falls in every step that is
-- pending.
-- The digits of a number are printed in at most 64 rounds, one for each bit.
-- No other recursion needs a bound: it follows a list, or a count of the source.
--
-- Texts are lists of ASCII codes, since the console stores no other character.
--
-- Parameters. The number of polls of a blocking transaction, and what the USB endpoint says to a
-- packet, are arguments. The SPI bus of the W5500 is a record of its one call; that the chip stores
-- what it is sent is a named hypothesis of one theorem. The NIC is a record of its two calls over a state of its own; the bus tables and the
-- stream layout, which a build generates, are records; the drive behind the sequencer is a function
-- from statusword and controlword to the next statusword, with the transitions of CiA 402 as named
-- hypotheses.
--
-- Not modelled: the text of the trace lines and of the console's answers, the initialisation and the
-- fault handlers of main.rs, the board support, whose effects are registers, the ENET driver,
-- a copy of another library over DMA memory, and the host's own programs.
pub mod Base
pub mod Datagram
pub mod Motion
pub mod Config
pub mod ProcessData
pub mod Cia402
pub mod Device
pub mod Domain
pub mod Cyclic
pub mod HostBridge
pub mod Modbus
pub mod Exchange
pub mod Change
pub mod Slave
pub mod Mailbox
pub mod Sync
pub mod FmmuConfig
pub mod Coe
pub mod Dc
pub mod SlaveConfig
pub mod Scan
pub mod BlockingScan
pub mod Master
pub mod Cli
pub mod Console
pub mod CycleTimer
pub mod W5500
pub mod Examples

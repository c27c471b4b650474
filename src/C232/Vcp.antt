-- ===== src/C232/Vcp.antt =====
-- `VcpTransport` of src/uart/c232/vcp.rs: opening the serial port of a cable, and the transport over
-- the operating system's driver. The serialport library and the clock are parameters.
pub mod Kinds
pub mod Drains
use glasgow_tool.Prelude.{
  ℕ, ◌+◌, ◌/◌, ◌^◌, Bool, true, false, String, Option, none, some, List, [], length, ◌==◌,
  if◌then◌else◌, ◌+s◌, decimal,
}
use glasgow_tool.Error.{Error, access, timeout, Result, ok, err, ErrorKind, IoError}
use glasgow_tool.Io.{Io, ◌>>=◌, ◌>>◌, pure, give, call}
use glasgow_tool.Poll.{Clock, poll}
use glasgow_tool.Transport.{
  Metadata, Counters, TransferOutcome, complete, failed, TransferFailureKind,
}
use glasgow_tool.Session.{from_millis}
use glasgow_tool.C232.Baud.{BaudResult, ftdi_high_speed_baud}
use glasgow_tool.C232.Devices.{VcpDevice}

abbrev pub io_timeout : ℕ
io_timeout = from_millis 50

abbrev pub drain_poll : ℕ
drain_poll = from_millis 10

-- serialport's `SerialPort`, opened with eight data bits, no parity, one stop bit and no flow control,
-- and the clock
pub record SerialHost (W : Type 0) : Type 0 where
  pub open_port : String → ℕ → W → Result String Unit × W
  pub write_data_terminal_ready : Bool → W → Result String Unit × W
  pub write_request_to_send : Bool → W → Result String Unit × W
  pub clear_input : W → Result String Unit × W
  pub try_clone : W → Result String Unit × W
  pub read : ℕ → W → Result IoError (List ℕ) × W
  pub write : List ℕ → W → Result IoError ℕ × W
  pub bytes_to_write : W → Result String ℕ × W
  pub clock : Clock W

pub record VcpTransport : Type 0 where
  pub metadata : Metadata
  pub cancelled : Bool

-- The path to open: the one that was given, or the stable one, or the port's own.
unfoldable pub port_path : VcpDevice → Option String → String
port_path device (some path) = path
port_path device none = elim device.stable_path [ some path ↦ path | none ↦ device.port ]

open_error : String → VcpDevice → String → String → Error
open_error what device path error =
    access
      ("cannot " +s what +s " C232HD serial " +s device.serial +s " at " +s path +s ": " +s error)

clear_error : String → VcpDevice → String → String → Error
clear_error what device path error =
    access (
      "cannot " +s what +s " for C232HD serial " +s device.serial +s " at " +s path +s ": "
      +s error)

unfoldable pub vcp_open :
    {W : Type 0} → SerialHost W → VcpDevice → ℕ → Option String → Io W VcpTransport
unfolding open_error clear_error
vcp_open host device requested_baud explicit_port = do
  let path = port_path device explicit_port
  baud ← give (ftdi_high_speed_baud requested_baud)
  call (open_error "open" device path) (host.open_port path requested_baud)
  call (clear_error "deassert DTR" device path) (host.write_data_terminal_ready false)
  call (clear_error "deassert RTS" device path) (host.write_request_to_send false)
  call (clear_error "clear stale input" device path) host.clear_input
  call (open_error "clone" device path) host.try_clone
  pure (record {
    metadata = record {
      backend = "vcp";
      serial = some device.serial;
      path = some path;
      requested_baud = requested_baud;
      actual_baud = baud.actual;
      minimum_baud = 9600;
      maximum_baud = 12_000_000;
    };
    cancelled = false;
  })

outcome_kind : ErrorKind → TransferFailureKind
outcome_kind ErrorKind.interrupted = TransferFailureKind.interrupted
outcome_kind ErrorKind.would_block = TransferFailureKind.would_block
outcome_kind ErrorKind.timed_out = TransferFailureKind.timed_out
outcome_kind ErrorKind.permission_denied = TransferFailureKind.access
outcome_kind ErrorKind.broken_pipe = TransferFailureKind.disconnected
outcome_kind ErrorKind.not_connected = TransferFailureKind.disconnected
outcome_kind ErrorKind.unexpected_eof = TransferFailureKind.disconnected
outcome_kind _ = TransferFailureKind.protocol

unfoldable pub io_outcome : Result IoError ℕ → TransferOutcome
unfolding outcome_kind
io_outcome (ok completed) = complete completed
io_outcome (err error) = failed 0 (outcome_kind error.kind) error.message

-- A read's bytes and their number.
abbrev pub counted_read : Result IoError (List ℕ) → Result IoError ℕ × List ℕ
counted_read (ok bytes) = (ok (length bytes), bytes)
counted_read (err error) = (err error, [])

unfoldable pub serial_of : Metadata → String
serial_of metadata = elim metadata.serial [ none ↦ "<no serial>" | some serial ↦ serial ]

unfoldable pub still_queued : VcpTransport → ℕ → Error
unfolding serial_of
still_queued vcp wait = timeout (
    "C232HD serial "
    +s serial_of vcp.metadata
    +s " did not drain within "
    +s decimal (wait / 10 ^ 6)
    +s " ms")

module _ {W : Type 0} (host : SerialHost W) where
  abbrev pub State : Type 0
  State = VcpTransport × W

  unfoldable pub vcp_read : ℕ → State → TransferOutcome × List ℕ × State
  vcp_read capacity (vcp, w) =
      if vcp.cancelled
      then (failed 0 TransferFailureKind.timed_out "cancelled", [], (vcp, w))
      else let (answer, w1) = host.read capacity w in
        let (count, bytes) = counted_read answer in (io_outcome count, bytes, (vcp, w1))

  unfoldable pub vcp_write : List ℕ → State → TransferOutcome × State
  vcp_write bytes (vcp, w) =
      if vcp.cancelled
      then (failed 0 TransferFailureKind.timed_out "cancelled", (vcp, w))
      else let (answer, w1) = host.write bytes w in (io_outcome answer, (vcp, w1))

  -- The output queue is empty.
  unfoldable pub queue_probe : VcpTransport → W → Result Error Bool × W
  unfolding serial_of
  queue_probe vcp w =
      let (queued, w1) = host.bytes_to_write w in
      elim queued [
        | ok n ↦ (ok (n == 0), w1)
        | err error ↦ (
          err (
              access (
                "cannot inspect C232HD output queue for serial "
                +s serial_of vcp.metadata
                +s ": "
                +s error)),
          w1,
        )
      ]

  -- `drain`, with at most `fuel` looks at the queue
  unfoldable pub vcp_drain : ℕ → ℕ → State → Option (Result Error Unit × W)
  vcp_drain fuel wait (vcp, w) =
      let (now, w1) = host.clock.now w in
      poll host.clock (queue_probe vcp) drain_poll (now + wait) (still_queued vcp wait) fuel w1

  unfoldable pub vcp_cancel : State → State
  vcp_cancel (vcp, w) = (record vcp { cancelled = true }, w)

  unfoldable pub vcp_counters : State → Counters
  vcp_counters s = record { rx_errors = 0; rx_overflow = 0 }

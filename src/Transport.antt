-- ===== src/Transport.antt =====
-- src/uart/transport.rs: transfer outcomes, the `Transport` trait as a record of operations over
-- the state `W` of the outside world, and `Port`, which wraps a transport as std::io Read and Write.
pub mod Laws
use glasgow_tool.Prelude.{ℕ, String, Option, none, some, List, ltb, length, if◌then◌else◌, ◌==◌}
use glasgow_tool.Error.{
  Error, Result, ok, err, ErrorKind, permission_denied, not_connected, invalid_data, write_zero,
  IoError,
}

pub record Metadata : Type 0 where
  pub backend : String
  pub serial : Option String
  pub path : Option String
  pub requested_baud : ℕ
  pub actual_baud : ℕ
  pub minimum_baud : ℕ
  pub maximum_baud : ℕ

pub record Counters : Type 0 where
  pub rx_errors : ℕ
  pub rx_overflow : ℕ

pub data TransferFailureKind : Type 0 where
  interrupted would_block timed_out access protocol disconnected : TransferFailureKind

pub record TransferFailure : Type 0 where
  pub kind : TransferFailureKind
  pub message : String

pub record TransferOutcome : Type 0 where
  pub completed : ℕ
  pub failure : Option TransferFailure

-- `TransferOutcome::complete`
abbrev pub complete : ℕ → TransferOutcome
complete n = record { completed = n; failure = none }

-- `TransferOutcome::failed`
abbrev pub failed : ℕ → TransferFailureKind → String → TransferOutcome
failed n kind message = record {
  completed = n;
  failure = some (record { kind = kind; message = message });
}

-- The trait. An operation takes the world and returns it; `read` is given the buffer's size and
-- returns its outcome with the bytes that it left at the front of the buffer.
pub record Transport (W : Type 0) : Type 0 where
  pub metadata : W → Metadata
  pub read : ℕ → W → TransferOutcome × List ℕ × W
  pub write : List ℕ → W → TransferOutcome × W
  pub submit_tx : W → W
  pub drain : ℕ → W → Result Error Unit × W
  pub cancel : W → W
  pub counters : W → Counters × W

-- `io_failure`: the std::io kind of each failure kind
io_failure_kind : TransferFailureKind → ErrorKind
io_failure_kind interrupted = ErrorKind.interrupted
io_failure_kind would_block = ErrorKind.would_block
io_failure_kind timed_out = ErrorKind.timed_out
io_failure_kind access = permission_denied
io_failure_kind protocol = invalid_data
io_failure_kind disconnected = not_connected

unfoldable pub io_failure : TransferFailure → IoError
unfolding io_failure_kind
io_failure failure = record { kind = io_failure_kind failure.kind; message = failure.message }

-- What `Read for Port` makes of an outcome for a buffer of `capacity` bytes.
unfoldable pub port_read : ℕ → TransferOutcome → Result IoError ℕ
unfolding io_failure
port_read capacity outcome =
    if ltb capacity outcome.completed
    then err (record {
      kind = invalid_data;
      message = "transport reported more RX bytes than buffer capacity";
    })
    else if outcome.completed == 0
    then (elim outcome.failure [ some failure ↦ err (io_failure failure) | none ↦ ok 0 ])
    else ok outcome.completed

-- What `Write for Port` makes of an outcome for `submitted` bytes.
unfoldable pub port_write : ℕ → TransferOutcome → Result IoError ℕ
unfolding io_failure
port_write submitted outcome =
    if ltb submitted outcome.completed
    then err (record {
      kind = invalid_data;
      message = "transport reported more TX bytes than submitted";
    })
    else if outcome.completed == 0
    then (elim outcome.failure [
      | some failure ↦ err (io_failure failure)
      | none ↦ err (record {
        kind = write_zero;
        message = "transport completed a zero-length TX without status";
      })
    ])
    else ok outcome.completed

-- `Port` holds the shared transport; these are its `Read` and `Write` methods.
module _ {W : Type 0} (transport : Transport W) where
  unfoldable pub read : ℕ → W → Result IoError ℕ × List ℕ × W
  unfolding port_read
  read capacity w =
      let (outcome, bytes, w1) = transport.read capacity w in
      (port_read capacity outcome, bytes, w1)

  unfoldable pub write : List ℕ → W → Result IoError ℕ × W
  unfolding port_write
  write bytes w =
      let (outcome, w1) = transport.write bytes w in (port_write (length bytes) outcome, w1)

  unfoldable pub flush : W → Result IoError Unit × W
  flush w = (ok tt, transport.submit_tx w)

  -- `Port::metadata`, `Port::counters`, `Port::drain` and `Port::cancel`
  unfoldable pub port_metadata : W → Metadata
  port_metadata w = transport.metadata w

  unfoldable pub port_counters : W → Counters × W
  port_counters w = transport.counters w

  unfoldable pub port_drain : ℕ → W → Result Error Unit × W
  port_drain wait w = transport.drain wait w

  unfoldable pub port_cancel : W → W
  port_cancel w = transport.cancel w

-- ===== src/Session.antt =====
-- src/uart/session.rs: the data of a session, its options and counters, and how a transfer failure
-- becomes an error. The workers, the coordinator and the whole session are in the modules below.
pub mod Worker
pub mod Tx
pub mod Rx
pub mod Coordinator
pub mod Run
use glasgow_tool.Prelude.{ℕ, ◌+◌, ◌*◌, ◌%◌, ◌^◌, String, Option, none, some}
use glasgow_tool.Error.{Error}
use glasgow_tool.Transport.{
  Counters, TransferFailure, TransferFailureKind, interrupted, would_block, timed_out, access,
  protocol, disconnected,
}

-- Durations and instants are counted in nanoseconds.
abbrev pub from_secs : ℕ → ℕ
from_secs n = n * 10 ^ 9

abbrev pub from_millis : ℕ → ℕ
from_millis n = n * 10 ^ 6

abbrev pub application_queue_bytes : ℕ
application_queue_bytes = 64 * 1024

abbrev pub would_block_backoff : ℕ
would_block_backoff = from_millis 1

abbrev pub console_escape : ℕ
console_escape = 0x1d

pub data SessionMode : Type 0 where
  console stream : SessionMode

-- `SessionOptions`; the cancellation token is a flag of the world that the session runs in
pub record SessionOptions : Type 0 where
  pub mode : SessionMode
  pub rx_idle_timeout : ℕ
  pub drain_timeout : ℕ

unfoldable pub console_options : SessionOptions
console_options = record {
  mode = console;
  rx_idle_timeout = from_secs 2;
  drain_timeout = from_secs 5;
}

unfoldable pub stream_options : SessionOptions
stream_options = record {
  mode = stream;
  rx_idle_timeout = from_secs 2;
  drain_timeout = from_secs 5;
}

-- `AtomicStatistics`: each counter is a u64 to which `fetch_add` adds with wrap-around
pub record AtomicStatistics : Type 0 where
  pub tx_accepted : ℕ
  pub tx_completed : ℕ
  pub rx : ℕ

abbrev pub fetch_add : ℕ → ℕ → ℕ
fetch_add counter n = (counter + n) % 2 ^ 64

abbrev pub zero_statistics : AtomicStatistics
zero_statistics = record { tx_accepted = 0; tx_completed = 0; rx = 0 }

pub record SessionStatistics : Type 0 where
  pub tx_bytes_accepted : ℕ
  pub tx_bytes_completed : ℕ
  pub rx_bytes : ℕ

unfoldable pub snapshot : AtomicStatistics → SessionStatistics
snapshot s = record {
  tx_bytes_accepted = s.tx_accepted;
  tx_bytes_completed = s.tx_completed;
  rx_bytes = s.rx;
}

pub data StopReason : Type 0 where
  rx_idle console_escape_seen cancelled : StopReason

-- `StopReason::as_str`
unfoldable pub as_str : StopReason → String
as_str rx_idle = "rx_idle"
as_str console_escape_seen = "console_escape"
as_str cancelled = "cancelled"

pub record SessionReport : Type 0 where
  pub statistics : SessionStatistics
  pub hardware : Counters
  pub reason : StopReason

pub data WorkerEvent : Type 0 where
  tx_drained : StopReason → WorkerEvent
  rx_activity : WorkerEvent
  worker_error : Error → WorkerEvent
  tx_stopped : WorkerEvent
  rx_stopped : WorkerEvent

failure_error : TransferFailureKind → String → Option Error
failure_error interrupted message = none
failure_error would_block message = none
failure_error timed_out message = none
failure_error access message = some (Error.access message)
failure_error disconnected message = some (Error.access message)
failure_error protocol message = some (Error.protocol message)

unfoldable pub map_transfer_failure : TransferFailure → Option Error
unfolding failure_error
map_transfer_failure failure = failure_error failure.kind failure.message

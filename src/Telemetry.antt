-- ===== src/Telemetry.antt =====
-- src/uart/telemetry.rs: session events, the exit code of an error, and the NDJSON record that the
-- observer writes for each event.
use glasgow_tool.Prelude.{ℕ, String, Option, none, some, ◌^◌, ltb, if◌then◌else◌, ◌+s◌}
use glasgow_tool.Error.{Error, selection, access, protocol, timeout, validation, Result, ok}
use glasgow_tool.Io.{Io, ◌>>=◌, ◌>>◌, pure, call}
use glasgow_tool.Transport.{Metadata, Counters}
use glasgow_tool.Session.{SessionStatistics, StopReason, as_str}

pub data SessionPhase : Type 0 where
  running draining final : SessionPhase

pub record SessionEvent : Type 0 where
  pub metadata : Metadata
  pub phase : SessionPhase
  pub statistics : SessionStatistics
  pub counters : Counters
  pub stop_reason : Option StopReason
  pub error : Option Error

-- `EventRecord`, as handed to the JSON serializer; an absent optional field is left out there
pub record EventRecord : Type 0 where
  pub schema_version : ℕ
  pub monotonic_ns : ℕ
  pub tool : String
  pub backend : String
  pub selected_serial : Option String
  pub selected_path : Option String
  pub requested_baud : Option ℕ
  pub actual_baud : Option ℕ
  pub phase : SessionPhase
  pub tx_bytes_accepted : ℕ
  pub tx_bytes_completed : ℕ
  pub rx_bytes : ℕ
  pub hardware : Counters
  pub reason : Option String
  pub exit_code : Option ℕ

unfoldable pub error_exit_code : Error → ℕ
error_exit_code (selection _) = 2
error_exit_code (access _) = 3
error_exit_code (protocol _) = 4
error_exit_code (timeout _) = 5
error_exit_code (validation _) = 6

-- `event.error.map_or(0, error_exit_code)`
code_of : Option Error → ℕ
unfolding error_exit_code
code_of none = 0
code_of (some error) = error_exit_code error

-- `(event.phase == Final).then(|| …)`
final_exit_code : SessionPhase → Option Error → Option ℕ
unfolding code_of
final_exit_code final error = some (code_of error)
final_exit_code _ error = none

reason_text : Option StopReason → Option String
unfolding as_str
reason_text none = none
reason_text (some reason) = some (as_str reason)

-- `u64::try_from(nanoseconds).unwrap_or(u64::MAX)`
saturate_u64 : ℕ → ℕ
saturate_u64 n = if ltb n (2 ^ 64) then n else 18446744073709551615

-- The record of one event, for the observer's `source` after `elapsed` nanoseconds.
unfoldable pub event_record : String → ℕ → SessionEvent → EventRecord
unfolding final_exit_code reason_text saturate_u64
event_record source elapsed event = record {
  schema_version = 1;
  monotonic_ns = saturate_u64 elapsed;
  tool = source;
  backend = event.metadata.backend;
  selected_serial = event.metadata.serial;
  selected_path = event.metadata.path;
  requested_baud = some event.metadata.requested_baud;
  actual_baud = some event.metadata.actual_baud;
  phase = event.phase;
  tx_bytes_accepted = event.statistics.tx_bytes_accepted;
  tx_bytes_completed = event.statistics.tx_bytes_completed;
  rx_bytes = event.statistics.rx_bytes;
  hardware = event.counters;
  reason = reason_text event.stop_reason;
  exit_code = final_exit_code event.phase event.error;
}

-- `NoopObserver`
unfoldable pub noop_observe : {W : Type 0} → SessionEvent → Io W Unit
noop_observe event = pure tt

-- The JSON serializer over the log's writer, the writer, and the time since the observer was made
pub record LogWriter (W : Type 0) : Type 0 where
  pub write_json : EventRecord → W → Result String Unit × W
  pub write_newline : W → Result String Unit × W
  pub flush : W → Result String Unit × W
  pub elapsed : W → ℕ × W

unfoldable pub log_error : String → Error
log_error error = access ("event log write failed: " +s error)

-- `NdjsonObserver::observe`: one object on a line, flushed.
unfoldable pub ndjson_observe : {W : Type 0} → LogWriter W → String → SessionEvent → Io W Unit
unfolding log_error
ndjson_observe log source event = do
  elapsed ← λ w. let (n, w1) = log.elapsed w in (ok n, w1)
  call log_error (log.write_json (event_record source elapsed event))
  call log_error log.write_newline
  call log_error log.flush

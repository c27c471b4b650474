-- ===== src/Session/Run.antt =====
-- `run_session_observed` of src/uart/session.rs: the first observation, the workers' start, the
-- coordinator, the join and the last observation.
pub mod Laws
pub mod Events
pub mod Channel
pub mod Transfers
pub mod Ends
use glasgow_tool.Prelude.{
  is_none, ℕ, ◌+◌, Bool, true, false, ◌&&◌, String, Option, none, some, List, [], ◌∷◌, ◌++◌,
  if◌then◌else◌, ◌+s◌,
}
use glasgow_tool.Error.{Error, protocol, Result, ok, err}
use glasgow_tool.Transport.{Metadata, Counters}
use glasgow_tool.Session.{SessionOptions, SessionStatistics, SessionReport, StopReason, rx_idle}
use glasgow_tool.Telemetry.{SessionPhase, running, final, SessionEvent}
use glasgow_tool.Session.Coordinator.{Coordination, Locals, Tick, start, in_loop, run, coordination}

-- What starting the two threads came to; a TX thread that cannot start stops the RX thread.
pub data Spawn : Type 0 where
  rx_refused tx_refused : String → Spawn
  spawned : Spawn

-- What the session reads from outside: the observer's first and last answers, the counters at each,
-- the threads' start, the coordinator's rounds, whether a worker panicked.
pub record Surroundings : Type 0 where
  pub metadata : Metadata
  pub flag : Bool
  pub first_counters : Counters
  pub first_answer : Result Error Unit
  pub spawn : Spawn
  pub ticks : List Tick
  pub tx_panicked : Bool
  pub rx_panicked : Bool
  pub statistics : SessionStatistics
  pub final_counters : Counters
  pub final_answer : Result Error Unit
  pub report_counters : Counters

-- The events handed to the observer so far, how often the transport was cancelled, and the result;
-- `none` while the workers have not stopped.
pub record Outcome : Type 0 where
  pub observed : List SessionEvent
  pub cancels : ℕ
  pub result : Option (Result Error SessionReport)

unfoldable pub running_event : Surroundings → SessionEvent
running_event o = record {
  metadata = o.metadata;
  phase = running;
  statistics = record { tx_bytes_accepted = 0; tx_bytes_completed = 0; rx_bytes = 0 };
  counters = o.first_counters;
  stop_reason = none;
  error = none;
}

unfoldable pub final_event : Surroundings → Option StopReason → Option Error → SessionEvent
final_event o reason error = record {
  metadata = o.metadata;
  phase = final;
  statistics = o.statistics;
  counters = o.final_counters;
  stop_reason = reason;
  error = error;
}

-- `WorkerHandles::join`
unfoldable pub join : Bool → Bool → Option Error → Option Error
join tx_panicked rx_panicked (some error) = some error
join true rx_panicked none = some (protocol "TX worker panicked")
join false true none = some (protocol "RX worker panicked")
join false false none = none

-- `observe(…)?` and then the result
observe_final :
    Surroundings → List SessionEvent → ℕ → SessionEvent → Result Error SessionReport → Outcome
observe_final o observed cancels event result = record {
  observed = observed ++ event ∷ [];
  cancels = cancels;
  result = elim o.final_answer [ ok _ ↦ some result | err error ↦ some (err error) ];
}

or_idle : Option StopReason → StopReason
or_idle none = rx_idle
or_idle (some reason) = reason

or_protocol : Option Error → Error
or_protocol none = protocol "observer failed without returning an error"
or_protocol (some error) = error

report : Surroundings → StopReason → SessionReport
report o reason = record {
  statistics = o.statistics;
  hardware = o.report_counters;
  reason = reason;
}

-- After the workers are joined.
unfoldable pub conclude : Surroundings → List SessionEvent → ℕ → Coordination → Outcome
unfolding observe_final or_idle or_protocol report
conclude o observed cancels c =
    if c.observer_failed
    then record {
      observed = observed;
      cancels = cancels;
      result = some (err (or_protocol c.failure));
    }
    else elim c.failure [
      | some error ↦
          observe_final o observed cancels (final_event o c.stop_reason (some error)) (err error)
      | none ↦
          let reason = or_idle c.stop_reason in
          observe_final o observed cancels (final_event o (some reason) none) (ok (report o reason))
    ]

unfoldable pub coordinate : SessionOptions → Surroundings → List SessionEvent → Outcome
coordinate options o observed =
    let s = run options o.ticks (start observed o.flag) in
    if in_loop s
    then record { observed = s.observed; cancels = s.cancels; result = none }
    else conclude o s.observed s.cancels
        (record (coordination s) { failure = join o.tx_panicked o.rx_panicked s.failure })

-- `spawn_workers(…)?` and the rest
with_workers : SessionOptions → Surroundings → List SessionEvent → Spawn → Outcome
unfolding coordinate
with_workers options o observed (rx_refused error) = record {
  observed = observed;
  cancels = 0;
  result = some (err (protocol ("cannot start RX worker: " +s error)));
}
with_workers options o observed (tx_refused error) = record {
  observed = observed;
  cancels = 1;
  result = some (err (protocol ("cannot start TX worker: " +s error)));
}
with_workers options o observed spawned = coordinate options o observed

unfoldable pub run_session_observed : SessionOptions → Surroundings → Outcome
unfolding with_workers
run_session_observed options o =
    let observed = running_event o ∷ [] in
    elim o.first_answer [
      | ok _ ↦ with_workers options o observed o.spawn
      | err error ↦ record { observed = observed; cancels = 0; result = some (err error) }
    ]

-- ===== src/Session/Coordinator.antt =====
-- `Coordinator::run` of src/uart/session.rs. Each round of its loop is a function of the local
-- variables and of a `Tick`: what the round reads from the clock, the flag, the channel, the
-- counters and the observer.
pub mod Drained
pub mod Invariant
pub mod Failures
pub mod Ending
pub mod Events
use glasgow_tool.Prelude.{
  ℕ, ◌+◌, ◌-◌, Bool, true, false, ◌&&◌, ◌||◌, not, Option, none, some, List, [], ◌∷◌, ◌++◌, leb,
  max, if◌then◌else◌, is_none,
}
use glasgow_tool.Error.{Error, timeout, Result, ok, err}
use glasgow_tool.Transport.{Metadata, Counters}
use glasgow_tool.Session.{
  SessionMode, console, stream, SessionOptions, SessionStatistics, StopReason, rx_idle,
  console_escape_seen, cancelled, WorkerEvent, tx_drained, rx_activity, worker_error, tx_stopped,
  rx_stopped,
}
use glasgow_tool.Telemetry.{SessionPhase, draining, SessionEvent}

pub record Coordination : Type 0 where
  pub stop_reason : Option StopReason
  pub failure : Option Error
  pub observer_failed : Bool

-- The local variables of `run`, the shared flag as this thread knows it, how often it has called
-- `transport.cancel`, the events handed to the observer, and whether it left by `break`.
pub record Locals : Type 0 where
  pub tx_done : Bool
  pub rx_done : Bool
  pub drained_at : Option ℕ
  pub stop_reason : Option StopReason
  pub failure : Option Error
  pub join_deadline : Option ℕ
  pub observer_failed : Bool
  pub flag : Bool
  pub cancels : ℕ
  pub observed : List SessionEvent
  pub left : Bool

-- `events.recv_timeout(COORDINATOR_TICK)`
pub data Received : Type 0 where
  event : WorkerEvent → Received
  elapsed : Received
  disconnected : Received

-- What one round reads. `signal`: another thread has set the flag. The instants are those of the
-- calls of `Instant::now`, in the order of the code. `answer` is the observer's, if it is asked.
pub record Tick : Type 0 where
  pub signal : Bool
  pub at_signal : ℕ
  pub last_rx : ℕ
  pub at_quiet : ℕ
  pub at_idle : ℕ
  pub at_join : ℕ
  pub received : Received
  pub at_event : ℕ
  pub metadata : Metadata
  pub statistics : SessionStatistics
  pub counters : Counters
  pub answer : Result Error Unit

abbrev pub start : List SessionEvent → Bool → Locals
start observed flag = record {
  tx_done = false;
  rx_done = false;
  drained_at = none;
  stop_reason = none;
  failure = none;
  join_deadline = none;
  observer_failed = false;
  flag = flag;
  cancels = 0;
  observed = observed;
  left = false;
}

-- `cancelled.store(true)`, `transport.cancel()` and a deadline for the workers to stop
shut_down : SessionOptions → ℕ → Locals → Locals
shut_down options now s = record s {
  flag = true;
  cancels = s.cancels + 1;
  join_deadline = some (now + options.drain_timeout);
}

-- The first `if` of the loop; the flag, once set, stays set.
unfoldable pub on_signal : SessionOptions → Tick → Locals → Locals
unfolding shut_down
on_signal options t s =
    let loaded = s.flag || t.signal in
    let s1 : Locals = record s { flag = loaded } in
    if loaded && is_none s.stop_reason && is_none s.failure
    then shut_down options t.at_signal (record s1 {
      stop_reason = some cancelled;
      failure = some (timeout "session cancelled by signal");
    })
    else s1

-- `saturating_duration_since(quiet_since) >= rx_idle_timeout`
is_quiet : SessionOptions → Tick → ℕ → Bool
is_quiet options t started = leb options.rx_idle_timeout (t.at_quiet - max t.last_rx started)

unfoldable pub on_idle : SessionOptions → Tick → Locals → Locals
unfolding shut_down is_quiet
on_idle options t s = elim s.drained_at [
  | none ↦ s
  | some started ↦
      if is_quiet options t started
      then shut_down options t.at_idle (record s { stop_reason = some rx_idle })
      else s
]

-- `join_deadline.is_some_and(|deadline| Instant::now() >= deadline)`
is_late : Tick → Option ℕ → Bool
is_late t none = false
is_late t (some deadline) = leb deadline t.at_join

unfoldable pub on_deadline : Tick → Locals → Locals
unfolding is_late
on_deadline t s =
    if is_late t s.join_deadline && is_none s.failure
    then record s {
      failure = some (timeout "workers did not stop within the configured drain timeout");
      cancels = s.cancels + 1;
    }
    else s

draining_event : Tick → StopReason → SessionEvent
draining_event t reason = record {
  metadata = t.metadata;
  phase = draining;
  statistics = t.statistics;
  counters = t.counters;
  stop_reason = some reason;
  error = none;
}

-- After the observation, if there was one: `mode == Console || reason == Cancelled`
stops_now : SessionMode → StopReason → Bool
stops_now console reason = true
stops_now stream cancelled = true
stops_now stream _ = false

after_observation : SessionOptions → Tick → StopReason → Locals → Locals
unfolding shut_down stops_now
after_observation options t reason s =
    if stops_now options.mode reason
    then shut_down options t.at_event (record s { stop_reason = some reason })
    else record s { drained_at = some t.at_event }

on_drained : SessionOptions → Tick → StopReason → Locals → Locals
unfolding draining_event after_observation
on_drained options t reason s =
    if s.observer_failed
    then after_observation options t reason s
    else let s1 : Locals = record s { observed = s.observed ++ draining_event t reason ∷ [] } in
      elim t.answer [
        | ok _ ↦ after_observation options t reason s1
        | err error ↦
            shut_down options t.at_event
              (record s1 { failure = some error; observer_failed = true })
      ]

on_error : SessionOptions → Tick → Error → Locals → Locals
unfolding shut_down
on_error options t error s =
    shut_down options t.at_event
      (if is_none s.failure then record s { failure = some error } else s)

unfoldable pub on_received : SessionOptions → Tick → Received → Locals → Locals
unfolding on_drained on_error
on_received options t (event (tx_drained reason)) s = on_drained options t reason s
on_received options t (event (worker_error error)) s = on_error options t error s
on_received options t (event tx_stopped) s = record s { tx_done = true }
on_received options t (event rx_stopped) s = record s { rx_done = true }
on_received options t (event rx_activity) s = s
on_received options t elapsed s = s
on_received options t disconnected s = record s { left = true }

-- One round of the loop.
unfoldable pub iterate : SessionOptions → Tick → Locals → Locals
iterate options t s =
    on_received options t t.received (on_deadline t (on_idle options t (on_signal options t s)))

-- `while !tx_stopped || !rx_stopped`, and no `break` yet
abbrev pub in_loop : Locals → Bool
in_loop s = not s.left && (not s.tx_done || not s.rx_done)

-- The rounds made while the loop goes on.
unfoldable pub run : SessionOptions → List Tick → Locals → Locals
run options [] s = s
run options (t ∷ ts) s = if in_loop s then run options ts (iterate options t s) else s

abbrev pub coordination : Locals → Coordination
coordination s = record {
  stop_reason = s.stop_reason;
  failure = s.failure;
  observer_failed = s.observer_failed;
}

-- ===== src/Tests/Coordinating.antt =====
-- The coordinator (src/uart/session.rs) over short sequences of rounds.
use glasgow_tool.Prelude.{ℕ, ◌≡◌, ◌⊎◌, refl, true, false, some, List, [], ◌∷◌, not, arith}
use glasgow_tool.Error.{Error, access, protocol, ok}
use glasgow_tool.Session.{
  SessionOptions, stream_options, rx_idle, tx_drained, worker_error, tx_stopped, rx_stopped,
}
use glasgow_tool.Session.Coordinator.{Locals, Tick, Received, event, elapsed, start, in_loop, run}
use glasgow_tool.Session.Coordinator.Failures.{first_failure_kept}
use glasgow_tool.Session.Coordinator.Ending.{
  loop_end_exact, hears, is_over, is_loss, is_tx_word, is_rx_word, IsIdling, idle_never_times_out,
}
use glasgow_tool.Tests.Machine.{cable}

-- A round at an instant in which this arrives.
abbrev pub round_at : ℕ → Received → Tick
round_at now received = record {
  signal = false;
  at_signal = now;
  last_rx = 0;
  at_quiet = now;
  at_idle = now;
  at_join = now;
  received = received;
  at_event = now;
  metadata = cable;
  statistics = record { tx_bytes_accepted = 0; tx_bytes_completed = 0; rx_bytes = 0 };
  counters = record { rx_errors = 0; rx_overflow = 0 };
  answer = ok tt;
}

abbrev pub a_second : SessionOptions
a_second = record stream_options { rx_idle_timeout = 1_000_000_000; drain_timeout = 5_000_000_000 }

abbrev pub lost_device : Error
lost_device = access "device lost"

abbrev pub broken : List Tick
broken =
    round_at 10 (event (worker_error lost_device))
    ∷ round_at 20 (event (worker_error (protocol "late")))
    ∷ round_at 30 (event tx_stopped)
    ∷ round_at 40 (event rx_stopped)
    ∷ []

abbrev failed_state : Locals
failed_state = record (start [] true) { failure = some lost_device; join_deadline = some 99 }

first_failure_kept_example :
    ((run a_second broken failed_state).failure ≡ some lost_device)
    ⊎ ((false ≡ false) × ((run a_second broken failed_state).observer_failed ≡ true))
first_failure_kept_example = first_failure_kept a_second broken failed_state lost_device refl

abbrev drained_state : Locals
drained_state = record (start [] false) { tx_done = true; drained_at = some 5 }

abbrev late_round : Tick
late_round = round_at 2_000_000_000 elapsed

abbrev drained_rounds : List Tick
drained_rounds = round_at 3 (event tx_stopped) ∷ round_at 5 (event (tx_drained rx_idle)) ∷ []

loop_end_exact_example :
    in_loop (run a_second broken (start [] false))
    ≡ not (is_over (hears is_loss broken) (hears is_tx_word broken) (hears is_rx_word broken))
loop_end_exact_example = loop_end_exact a_second broken

abbrev idling_state : Locals
idling_state = record drained_state {
  stop_reason = some rx_idle;
  flag = true;
  cancels = 1;
  join_deadline = some 7_000_000_000;
}

abbrev silence : List Tick
silence =
    round_at 3_000_000_000 elapsed
    ∷ round_at 9_000_000_000 elapsed
    ∷ round_at 60_000_000_000 elapsed
    ∷ []

idle_never_times_out_example : IsIdling 5 (run a_second silence idling_state)
unfolding stream_options
idle_never_times_out_example =
    idle_never_times_out a_second 5 silence idling_state
      (
        refl,
        omega arith,
        omega arith,
        (refl, omega arith, omega arith, (refl, omega arith, omega arith, tt)),
      )
      (record { drained = refl; reason = refl; no_failure = refl; waiting = refl })

-- ===== src/Tests/Sessions.antt =====
-- Whole sessions (src/uart/session.rs) that succeed, fail and are refused.
use glasgow_tool.Prelude.{◌≡◌, ◌⊎◌, refl, true, false, none, some, [], ◌∷◌}
use glasgow_tool.Error.{Error, access, Result, ok, err}
use glasgow_tool.Session.{
  SessionReport, stream_options, rx_idle, tx_drained, tx_stopped, rx_stopped,
}
use glasgow_tool.Session.Coordinator.{
  event, iterate, in_loop, run, on_signal, on_idle, on_deadline, on_received,
}
use glasgow_tool.Session.Run.{
  Surroundings, spawned, run_session_observed, coordinate, conclude, join, running_event,
  final_event,
}
use glasgow_tool.Session.Run.Events.{IsOrdered, session-IsOrdered}
use glasgow_tool.Session.Run.Laws.{coordinator, EndsWith, session_ok, session_error_reported}
use glasgow_tool.Cli.ExitCodes.{LogsCode, final_event_has_exit_code}
use glasgow_tool.Tests.Machine.{cable}
use glasgow_tool.Tests.Coordinating.{round_at, a_second, lost_device, broken}

abbrev pub smooth : Surroundings
smooth = record {
  metadata = cable;
  flag = false;
  first_counters = record { rx_errors = 0; rx_overflow = 0 };
  first_answer = ok tt;
  spawn = spawned;
  ticks =
      round_at 10 (event (tx_drained rx_idle))
      ∷ round_at 20 (event tx_stopped)
      ∷ round_at 2_000_000_000 (event rx_stopped)
      ∷ [];
  tx_panicked = false;
  rx_panicked = false;
  statistics = record { tx_bytes_accepted = 3; tx_bytes_completed = 3; rx_bytes = 9 };
  final_counters = record { rx_errors = 0; rx_overflow = 0 };
  final_answer = ok tt;
  report_counters = record { rx_errors = 0; rx_overflow = 1 };
}

abbrev smooth_report : SessionReport
smooth_report = record {
  statistics = record { tx_bytes_accepted = 3; tx_bytes_completed = 3; rx_bytes = 9 };
  hardware = record { rx_errors = 0; rx_overflow = 1 };
  reason = rx_idle;
}

smooth_runs : (run_session_observed a_second smooth).result ≡ some (ok smooth_report)
unfolding run_session_observed coordinate conclude join run iterate on_signal on_idle on_deadline
    on_received stream_options running_event final_event
smooth_runs = refl

session_ok_example :
    (smooth.first_answer ≡ ok tt)
    × (smooth.spawn ≡ spawned)
    × (in_loop (coordinator a_second smooth) ≡ false)
    × ((coordinator a_second smooth).failure ≡ none)
    × (smooth.tx_panicked ≡ false)
    × (smooth.rx_panicked ≡ false)
    × (smooth.final_answer ≡ ok tt)
    × EndsWith a_second smooth (some rx_idle) none
    × (smooth_report.statistics ≡ smooth.statistics)
session_ok_example = session_ok a_second smooth smooth_report smooth_runs

session-IsOrdered_example : IsOrdered (run_session_observed a_second smooth).observed
session-IsOrdered_example = session-IsOrdered a_second smooth

abbrev pub refusing : Surroundings
refusing = record smooth { first_answer = err (access "event log full") }

abbrev failing : Surroundings
failing = record smooth { ticks = broken }

failing_fails : (run_session_observed a_second failing).result ≡ some (err lost_device)
unfolding run_session_observed coordinate conclude join run iterate on_signal on_idle on_deadline
    on_received stream_options running_event final_event
failing_fails = refl

session_error_reported_example :
    ((coordinator a_second failing).observer_failed ≡ true)
    ⊎ (◌≡◌ {A = Result Error Unit} (ok tt) (err lost_device))
    ⊎ EndsWith a_second failing (coordinator a_second failing).stop_reason (some lost_device)
session_error_reported_example =
    session_error_reported a_second failing lost_device refl refl failing_fails

failing_observer_ok : (coordinator a_second failing).observer_failed ≡ false
unfolding coordinator run iterate on_signal on_idle on_deadline on_received stream_options
failing_observer_ok = refl

final_event_has_exit_code_example : LogsCode a_second failing "guart" 77 (err lost_device)
final_event_has_exit_code_example =
    final_event_has_exit_code a_second failing "guart" 77 (err lost_device) refl refl
      failing_observer_ok refl failing_fails

-- ===== src/Tests/Whole.antt =====
-- A session with both of its workers (src/uart/session.rs): three bytes go out, two are shown.
use glasgow_tool.Prelude.{◌≡◌, refl, some, [], ◌∷◌, arith}
use glasgow_tool.Error.{Error, Result, ok}
use glasgow_tool.Session.{
  SessionOptions, SessionReport, StopReason, stream_options, rx_idle, tx_drained, rx_activity,
  tx_stopped, rx_stopped,
}
use glasgow_tool.Session.Tx.Relayed.{Relayed}
use glasgow_tool.Session.Coordinator.{
  event, elapsed, run, iterate, on_signal, on_idle, on_deadline, on_received,
}
use glasgow_tool.Session.Run.{
  Surroundings, run_session_observed, coordinate, conclude, join, running_event, final_event,
}
use glasgow_tool.Session.Run.Channel.{Merge, finished, of_first, of_second, in_between}
use glasgow_tool.Session.Run.Transfers.{AllShown, session_transfers}
use glasgow_tool.Session.Run.Ends.{session_returns}
use glasgow_tool.Tests.Machine.{machine_transport, machine_host, machine_views, machine_laws}
use glasgow_tool.Tests.Writing.{loaded, relayed, relays}
use glasgow_tool.Tests.Receiving.{feed, screen, screen_views, screen_laws, blank, filled, receives}
use glasgow_tool.Tests.Coordinating.{round_at}
use glasgow_tool.Tests.Sessions.{smooth}

abbrev briefly : SessionOptions
briefly = record stream_options { rx_idle_timeout = 100; drain_timeout = 1000 }

abbrev both : Surroundings
both = record smooth {
  ticks =
      round_at 10 (event (tx_drained rx_idle))
      ∷ round_at 20 (event rx_activity)
      ∷ round_at 150 elapsed
      ∷ round_at 160 (event rx_stopped)
      ∷ round_at 170 (event tx_stopped)
      ∷ [];
}

mixed : Merge relayed.events filled.events both.ticks
mixed = of_first refl (of_second refl (in_between refl (of_second refl (of_first refl finished))))

abbrev both_report : SessionReport
both_report = record {
  statistics = both.statistics;
  hardware = both.report_counters;
  reason = rx_idle;
}

both_run : (run_session_observed briefly both).result ≡ some (ok both_report)
unfolding run_session_observed coordinate conclude join run iterate on_signal on_idle on_deadline
    on_received running_event final_event stream_options
both_run = refl

session_transfers_example :
    ((reason : StopReason) × (relayed.events ≡ tx_drained reason ∷ tx_stopped ∷ [])
      × Relayed machine_views (7 ∷ []) [] (ok reason) relayed)
    × AllShown screen_views blank filled
unfolding stream_options
session_transfers_example =
    session_transfers machine_transport machine_host machine_views machine_laws feed screen
      screen_views screen_laws briefly both both_report 9 3 3 loaded relayed blank filled
      (omega arith) (omega arith) refl refl relays receives mixed both_run

session_returns_example :
    (r : Result Error SessionReport) × ((run_session_observed briefly both).result ≡ some r)
unfolding stream_options
session_returns_example =
    session_returns machine_transport machine_host feed screen briefly both 9 3 3 loaded relayed
      blank filled relays receives mixed

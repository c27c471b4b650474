-- ===== src/Tests/Writing.antt =====
-- `write_transport` (src/uart/session.rs) at work.
use glasgow_tool.Prelude.{ℕ, ◌≡◌, refl, some, List, [], ◌∷◌, arith}
use glasgow_tool.Error.{Error, Result, ok}
use glasgow_tool.Session.{
  stream, console, console_escape_seen, StopReason, rx_idle, tx_drained, tx_stopped,
  zero_statistics, map_transfer_failure,
}
use glasgow_tool.Session.Worker.{Context, write_all_and_flush}
use glasgow_tool.Session.Tx.{
  account, nap, after_write, write_round, write_transport, escape_index, transmitted, echo, forward,
  after_chunk, after_read, tx_round, tx_loop, mark_completed, tx_finish, tx_body, tx_report,
  tx_worker,
}
use glasgow_tool.Session.Tx.Relayed.{Relayed}
use glasgow_tool.Session.Tx.Relay.{Reported, tx_worker-Relayed}
use glasgow_tool.Session.Tx.Escape.{SentPlain, tx_worker-SentPlain}
use glasgow_tool.Tests.Machine.{
  Machine, machine_transport, machine_host, machine_views, machine_laws, busy_machine,
}

abbrev before : Context Machine
before = record { world = busy_machine; statistics = zero_statistics; events = [] }

abbrev after : Context Machine
after = record {
  world = record busy_machine { wire = 7 ∷ 1 ∷ 2 ∷ 3 ∷ []; busy = 0 };
  statistics = record zero_statistics { tx_accepted = 3 };
  events = [];
}

abbrev three : List ℕ
three = 1 ∷ 2 ∷ 3 ∷ []

writes_three : write_transport machine_transport machine_host 9 three before ≡ some (ok tt, after)
unfolding write_transport write_round after_write account nap map_transfer_failure
writes_three = refl

abbrev pub loaded : Context Machine
loaded = record {
  world = record busy_machine { input = 9 ∷ 8 ∷ 7 ∷ [] };
  statistics = zero_statistics;
  events = [];
}

abbrev pub relayed : Context Machine
relayed = record {
  world = record busy_machine { wire = 7 ∷ 9 ∷ 8 ∷ 7 ∷ []; consumed = 9 ∷ 8 ∷ 7 ∷ []; busy = 0 };
  statistics = record zero_statistics { tx_accepted = 3; tx_completed = 3 };
  events = tx_drained rx_idle ∷ tx_stopped ∷ [];
}

pub relays : tx_worker machine_transport machine_host 9 3 stream 1000 loaded ≡ some relayed
unfolding tx_worker tx_report tx_body tx_finish mark_completed tx_loop tx_round after_read
    after_chunk escape_index transmitted forward echo write_transport write_round after_write
    account nap map_transfer_failure
relays = refl

tx_worker-Relayed_example :
    (r : Result Error StopReason) × Relayed machine_views (7 ∷ []) [] r relayed
    × Reported machine_transport machine_host machine_views machine_laws r relayed
tx_worker-Relayed_example =
    tx_worker-Relayed machine_transport machine_host machine_views machine_laws 9 3 stream 1000
      loaded relayed (omega arith) relays

-- A console: Ctrl-] and what follows it are not sent.
abbrev typed : Context Machine
typed = record {
  world = record busy_machine { input = 9 ∷ 0x1d ∷ 7 ∷ [] };
  statistics = zero_statistics;
  events = [];
}

abbrev escaped : Context Machine
escaped = record {
  world = record busy_machine { wire = 7 ∷ 9 ∷ []; consumed = 9 ∷ 0x1d ∷ 7 ∷ []; busy = 0 };
  statistics = record zero_statistics { tx_accepted = 1; tx_completed = 1 };
  events = tx_drained console_escape_seen ∷ tx_stopped ∷ [];
}

escapes : tx_worker machine_transport machine_host 9 3 console 1000 typed ≡ some escaped
unfolding tx_worker tx_report tx_body tx_finish mark_completed tx_loop tx_round after_read
    after_chunk escape_index transmitted forward echo write_transport write_round after_write
    account nap map_transfer_failure write_all_and_flush
escapes = refl

tx_worker-SentPlain_example :
    SentPlain machine_transport machine_host machine_views machine_laws (7 ∷ []) escaped
tx_worker-SentPlain_example =
    tx_worker-SentPlain machine_transport machine_host machine_views machine_laws 9 3 1000 typed
      escaped (omega arith) escapes

-- ===== src/Tests/Relaying.antt =====
-- The RX worker over the USB transport (src/uart/session.rs, src/uart/c232/usb.rs): two transfers are
-- shown, then the session is cancelled.
use glasgow_tool.Prelude.{
  ℕ, ◌+◌, ◌≤◌, ◌≡◌, refl, sym, ap, Bool, true, false, Option, none, some, List, [], ◌∷◌, ◌++◌,
  is_empty, length, take, take-all, arith,
}
use glasgow_tool.Error.{Error, ok}
use glasgow_tool.Session.{zero_statistics}
use glasgow_tool.Session.Worker.{Host, Context, write_all_and_flush}
use glasgow_tool.Session.Rx.{rx_worker}
use glasgow_tool.C232.Usb.{Completion, UsbHost, UsbTransport, transmitter_probe}
use glasgow_tool.C232.Usb.Counting.{FlushTakesTime}
use glasgow_tool.C232.Trait.{Watched, usb_transport, watched_host}
use glasgow_tool.C232.Trait.Shown.{OutputLaws}
use glasgow_tool.Tests.Machine.{cable}

record Desk : Type 0 where
  pub transfers : List Completion
  pub time : ℕ
  pub shown : List ℕ

abbrev take_transfer : Desk → Option Completion × Desk
take_transfer w = elim w.transfers [
  | [] ↦ (none, w)
  | c ∷ cs ↦ (some c, record w { transfers = cs })
]

abbrev desk_usb : UsbHost Desk
desk_usb = record {
  endpoint = record { wait_next_complete = take_transfer; submit = λ w. w; cancel_all = λ w. w };
  clock = record { now = λ w. (w.time, w); sleep = λ n w. record w { time = w.time + n } };
  write = λ bytes w. (ok (length bytes), w);
  submit = λ w. w;
  set_write_timeout = λ n w. w;
  flush = λ w. (ok tt, w);
  modem_status_request = λ w. (ok (1 ∷ 0x60 ∷ []), w);
}

abbrev desk_host : Host Desk
desk_host = record {
  is_cancelled = λ w. (is_empty w.transfers, w);
  read_input = λ n w. (ok [], w);
  write_all = λ bytes w. (ok tt, record w { shown = w.shown ++ bytes });
  flush = λ w. (ok tt, w);
  sleep = λ n w. w;
  mark_rx = λ w. w;
}

desk_clocks :
    (interface : Bool) (late : Error) (deadline : ℕ)
    → FlushTakesTime desk_usb interface late deadline
unfolding transmitter_probe
desk_clocks interface late deadline = record {
  advances = record {
    time = λ w. w.time;
    now_time = λ w. refl;
    time-now = λ w. omega arith;
    time-sleep = λ w. omega arith;
    time-probe = λ w. ground arith;
  };
  time-set_write_timeout = λ n w. omega arith;
  time-flush = λ w. omega arith;
}

shows_bytes :
    (bytes : List ℕ) (w : Desk)
    → (k : ℕ) × (k ≤ length bytes)
      × ((write_all_and_flush desk_host bytes w).1.shown ≡ w.shown ++ take k bytes)
unfolding write_all_and_flush
shows_bytes bytes w = (
  length bytes,
  omega arith,
  ap (λ l. w.shown ++ l) (sym (take-all (length bytes) bytes (omega arith))),
)

wait_unseen : (w : Desk) → (take_transfer w).1.shown ≡ w.shown
wait_unseen w = ground arith

desk_laws : OutputLaws desk_usb desk_host
unfolding write_all_and_flush
desk_laws = record {
  shown = λ w. w.shown;
  shown-wait_next_complete = wait_unseen;
  shown-submit = λ w. refl;
  shown-output = λ bytes w h. refl;
  shown-output_failed = shows_bytes;
  shown-is_cancelled = λ w. refl;
  shown-sleep = λ n w. refl;
  shown-mark_rx = λ w. refl;
}

abbrev desk_cable : UsbTransport
desk_cable = record {
  metadata = cable;
  interface = true;
  rx = some (record { pending_payload = []; max_packet = 4; last_line_status = none });
  writer = true;
  rx_errors = 0;
  rx_overflow = 0;
  cancelled = false;
  driver_detached = true;
}

abbrev desk_start : Context (Watched Desk)
desk_start = record {
  world = record {
    usb = desk_cable;
    world = record {
      transfers =
          record { status = none; buffer = 1 ∷ 0x60 ∷ 5 ∷ 6 ∷ 1 ∷ 0x60 ∷ 7 ∷ [] }
          ∷ record { status = none; buffer = 1 ∷ 0x60 ∷ 8 ∷ [] }
          ∷ [];
      time = 0;
      shown = [];
    };
    passed = [];
    came = [];
    agree = refl;
  };
  statistics = zero_statistics;
  events = [];
}

abbrev from_some : {A : Type 0} → Option A → A → A
from_some none a = a
from_some (some b) a = b

-- The state in which the worker ends.
desk_end : Context (Watched Desk)
desk_end =
    from_some (rx_worker (usb_transport desk_usb desk_clocks) (watched_host desk_host) 5 desk_start)
      desk_start

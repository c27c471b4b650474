-- ===== src/Tests/Ftdi.antt =====
-- The USB transport of the cable (src/uart/c232/usb.rs) over a few transfers, and a drain.
use glasgow_tool.Prelude.{
  ℕ, ◌+◌, ◌≡◌, refl, true, false, none, some, List, [], ◌∷◌, ◌++◌, leb, length, if◌then◌else◌,
  arith,
}
use glasgow_tool.Error.{Error, Result, ok}
use glasgow_tool.Poll.{poll}
use glasgow_tool.C232.Status.{strip_ftdi_status_from}
use glasgow_tool.C232.Status.Frames.{Packet, frames, strip_ftdi_status_of_frames}
use glasgow_tool.C232.Usb.{
  Completion, Endpoint, UsbRx, UsbHost, UsbTransport, State, not_drained, usb_drain, flush_writer,
  transmitter_probe,
}
use glasgow_tool.C232.Usb.Queue.{outputs, arrivals, reads_in_order}
use glasgow_tool.C232.Usb.Counting.{usb_drain_observed, SawEmpty, FlushTakesTime, usb_drain_returns}
use glasgow_tool.Tests.Machine.{cable}

-- A packet of two payload bytes, then one whose overrun and parity bits have risen.
abbrev two_packets : List Packet
two_packets =
    record { modem = 1; line = 0x60; payload = 5 ∷ 6 ∷ [] }
    ∷ record { modem = 1; line = 0x66; payload = 7 ∷ [] }
    ∷ []

strip_ftdi_status_of_frames_example :
    strip_ftdi_status_from (frames two_packets) 4 (some 0x60)
    ≡ ok (5 ∷ 6 ∷ 7 ∷ [], record { errors = 1; overflow = 1; transmitter_empty = true }, some 0x66)
strip_ftdi_status_of_frames_example =
    strip_ftdi_status_of_frames 4 two_packets (some 0x60) (omega arith)
      (omega arith, refl, (omega arith, omega arith)) (omega arith)

-- Transfers that are still to complete.
abbrev queue_endpoint : Endpoint (List Completion)
queue_endpoint = record {
  wait_next_complete = λ w. elim w [ [] ↦ (none, []) | c ∷ cs ↦ (some c, cs) ];
  submit = λ w. w;
  cancel_all = λ w. w;
}

abbrev empty_rx : UsbRx
empty_rx = record { pending_payload = []; max_packet = 4; last_line_status = none }

abbrev two_transfers : List Completion
two_transfers =
    record { status = none; buffer = frames two_packets }
    ∷ record { status = some "stall"; buffer = 1 ∷ 0x60 ∷ 8 ∷ [] }
    ∷ []

reads_in_order_example :
    (outputs queue_endpoint (2 ∷ 2 ∷ 8 ∷ 8 ∷ []) empty_rx two_transfers).0
      ++ (outputs queue_endpoint (2 ∷ 2 ∷ 8 ∷ 8 ∷ []) empty_rx two_transfers).1.pending_payload
    ≡ arrivals queue_endpoint (2 ∷ 2 ∷ 8 ∷ 8 ∷ []) empty_rx two_transfers
reads_in_order_example = reads_in_order queue_endpoint (2 ∷ 2 ∷ 8 ∷ 8 ∷ []) empty_rx two_transfers

-- The world is the time in nanoseconds; the transmitter is empty after 25 ms.
abbrev timed_host : UsbHost ℕ
timed_host = record {
  endpoint = record {
    wait_next_complete = λ w. (some (record { status = none; buffer = frames two_packets }), w + 1);
    submit = λ w. w;
    cancel_all = λ w. w;
  };
  clock = record { now = λ w. (w, w); sleep = λ n w. w + n };
  write = λ bytes w. (ok (length bytes), w);
  submit = λ w. w;
  set_write_timeout = λ n w. w;
  flush = λ w. (ok tt, w);
  modem_status_request = λ w. (ok (1 ∷ (if leb 25_000_000 w then 0x60 else 0x20) ∷ []), w);
}

abbrev open_cable : UsbTransport
open_cable = record {
  metadata = cable;
  interface = true;
  rx = some empty_rx;
  writer = true;
  rx_errors = 0;
  rx_overflow = 0;
  cancelled = false;
  driver_detached = true;
}

drains : usb_drain timed_host 9 50_000_000 (open_cable, 0) ≡ some (ok tt, (open_cable, 30_000_000))
unfolding usb_drain flush_writer transmitter_probe poll
drains = refl

usb_drain_observed_example : SawEmpty timed_host 30_000_000
usb_drain_observed_example =
    usb_drain_observed timed_host 9 50_000_000 (open_cable, 0) (open_cable, 30_000_000) drains

time_passes : FlushTakesTime timed_host true (not_drained timed_host open_cable 4) 4
unfolding transmitter_probe
time_passes = record {
  advances = record {
    time = λ w. w;
    now_time = λ w. refl;
    time-now = λ w. omega arith;
    time-sleep = λ w. omega arith;
    time-probe = λ w. omega arith;
  };
  time-set_write_timeout = λ n w. omega arith;
  time-flush = λ w. omega arith;
}

usb_drain_returns_example :
    (out : Result Error Unit × State timed_host) × (usb_drain timed_host 5 4 (open_cable, 0)
      ≡ some out)
usb_drain_returns_example = usb_drain_returns timed_host 5 4 open_cable 0 time_passes (omega arith)

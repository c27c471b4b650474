-- ===== src/Tests/Waiting.antt =====
-- The TX worker over the USB transport (src/uart/session.rs, src/uart/c232/usb.rs) when the cable
-- never takes a byte: it tries again until the session is cancelled, and then ends.
use glasgow_tool.Prelude.{
  ℕ, ◌+◌, ◌-◌, ◌<◌, ◌≡◌, refl, ap, Bool, true, false, none, some, List, [], ◌∷◌, take, arith, ◌==◌,
  length-take,
}
use glasgow_tool.Error.{Error, ok, err, ErrorKind}
use glasgow_tool.Transport.{Transport}
use glasgow_tool.Session.{stream, zero_statistics}
use glasgow_tool.Session.Worker.{Host, Context, write_all_and_flush}
use glasgow_tool.Session.Tx.{tx_worker}
use glasgow_tool.Session.Tx.Laws.{Patience}
use glasgow_tool.Session.Tx.Kept.{Falls}
use glasgow_tool.Session.Tx.Ending.{Finite, tx_worker-Returns}
use glasgow_tool.C232.Usb.{UsbHost, UsbTransport, usb_write, usb_submit_tx, transmitter_probe}
use glasgow_tool.C232.Usb.Counting.{FlushTakesTime}
use glasgow_tool.C232.Trait.{Watched, usb_transport, watched_host}
use glasgow_tool.Tests.Machine.{cable}

-- How often the worker still sees the flag clear, and the clock.
record Bench : Type 0 where
  pub looks : ℕ
  pub time : ℕ

abbrev deaf_usb : UsbHost Bench
deaf_usb = record {
  endpoint = record { wait_next_complete = λ w. (none, w); submit = λ w. w; cancel_all = λ w. w };
  clock = record { now = λ w. (w.time, w); sleep = λ n w. record w { time = w.time + n } };
  write = λ bytes w. (err (record { kind = ErrorKind.timed_out; message = "busy" }), w);
  submit = λ w. w;
  set_write_timeout = λ n w. w;
  flush = λ w. (ok tt, w);
  modem_status_request = λ w. (ok (1 ∷ 0x60 ∷ []), w);
}

abbrev bench_host : Host Bench
bench_host = record {
  is_cancelled = λ w. (w.looks == 0, record w { looks = w.looks - 1 });
  read_input = λ n w. (ok (take n (7 ∷ [])), w);
  write_all = λ bytes w. (ok tt, w);
  flush = λ w. (ok tt, w);
  sleep = λ n w. w;
  mark_rx = λ w. w;
}

bench_clocks :
    (interface : Bool) (late : Error) (deadline : ℕ)
    → FlushTakesTime deaf_usb interface late deadline
unfolding transmitter_probe
bench_clocks interface late deadline = record {
  advances = record {
    time = λ w. w.time;
    now_time = λ w. refl;
    time-now = λ w. omega arith;
    time-sleep = λ w. omega arith;
    time-probe = λ w. ground arith;
  };
  time-set_write_timeout = λ n w. omega arith;
  time-flush = λ w. omega arith;
}

abbrev looks : Watched Bench → ℕ
looks s = s.world.looks

-- A write changes nothing, whatever state the transport is in.
written :
    (bytes : List ℕ) (usb : UsbTransport) (w : Bench) → (usb_write deaf_usb bytes (usb, w)).1.1 ≡ w
unfolding usb_write
written bytes usb w = ground arith

submitted : (usb : UsbTransport) (w : Bench) → (usb_submit_tx deaf_usb (usb, w)).1 ≡ w
unfolding usb_submit_tx
submitted usb w = ground arith

fewer_looks : (n : ℕ) → (n == 0) ≡ false → n - 1 < n
fewer_looks n h = ground arith

abbrev usb_bench : Transport (Watched Bench)
usb_bench = usb_transport deaf_usb bench_clocks

usb_patience : Patience usb_bench (watched_host bench_host)
unfolding usb_transport
usb_patience = record {
  retries = looks;
  retry = λ bytes s clear h. omega (
    arith,
    fewer_looks s.world.looks clear,
    ap (λ w. w.looks) (written bytes s.usb (record s.world { looks = s.world.looks - 1 })),
  );
  retries-write = λ bytes s. omega (arith, ap (λ w. w.looks) (written bytes s.usb s.world));
  retries-is_cancelled = λ s. omega arith;
  retries-sleep = λ n s. omega arith;
}

looks-Falls : Falls usb_bench (watched_host bench_host) looks
unfolding usb_transport write_all_and_flush
looks-Falls = record {
  fall-write = λ bytes s. omega (arith, ap (λ w. w.looks) (written bytes s.usb s.world));
  fall-is_cancelled = λ s. omega arith;
  fall-sleep = λ n s. omega arith;
  fall-output = λ bytes s. omega arith;
  fall-submit_tx = λ s. omega (arith, ap (λ w. w.looks) (submitted s.usb s.world));
}

is_cancelled_soon : Finite usb_bench (watched_host bench_host) usb_patience
unfolding usb_patience
is_cancelled_soon = record {
  reads = looks;
  more = λ n s clear h. fewer_looks s.world.looks clear;
  fits = λ n s. omega (arith, length-take {A = ℕ} n (7 ∷ []));
  reads-Falls = looks-Falls;
  retries-Falls = looks-Falls;
  retries-read_input = λ n s. omega arith;
}

abbrev deaf_start : Context (Watched Bench)
deaf_start = record {
  world = record {
    usb = record {
      metadata = cable;
      interface = true;
      rx = none;
      writer = true;
      rx_errors = 0;
      rx_overflow = 0;
      cancelled = false;
      driver_detached = true;
    };
    world = record { looks = 3; time = 0 };
    passed = [];
    came = [];
    agree = refl;
  };
  statistics = zero_statistics;
  events = [];
}

tx_worker-Returns_example :
    (d : Context (Watched Bench)) × (tx_worker usb_bench
        (watched_host bench_host)
        65540
        4
        stream
        5
        deaf_start
      ≡ some d)
unfolding usb_patience is_cancelled_soon
tx_worker-Returns_example =
    tx_worker-Returns usb_bench (watched_host bench_host) usb_patience is_cancelled_soon 65540 4
      stream 5 deaf_start (omega arith) (omega arith)

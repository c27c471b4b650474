-- ===== src/Tests/Stopping.antt =====
-- The RX worker (src/uart/session.rs) over a transport that brings two bytes at each read, in a
-- session that is cancelled after some looks at the flag.
use glasgow_tool.Prelude.{ℕ, ◌-◌, ◌==◌, ◌≡◌, ◌<◌, some, [], ◌∷◌, arith, false}
use glasgow_tool.Error.{ok}
use glasgow_tool.Transport.{Transport, complete, failed, TransferFailureKind}
use glasgow_tool.Session.{zero_statistics}
use glasgow_tool.Session.Worker.{Host, Context, write_all_and_flush}
use glasgow_tool.Session.Rx.{rx_worker}
use glasgow_tool.Session.Rx.Returns.{Cancels, rx_worker-Returns}
use glasgow_tool.Tests.Machine.{cable}

-- The world is the number of looks at the flag that still find it clear.
abbrev ticking : Transport ℕ
ticking = record {
  metadata = λ w. cable;
  read = λ n w. (complete 2, 4 ∷ 5 ∷ [], w);
  write = λ bytes w. (failed 0 TransferFailureKind.would_block "busy", w);
  submit_tx = λ w. w;
  drain = λ n w. (ok tt, w);
  cancel = λ w. w;
  counters = λ w. (record { rx_errors = 0; rx_overflow = 0 }, w);
}

abbrev clock : Host ℕ
clock = record {
  is_cancelled = λ w. (w == 0, w - 1);
  read_input = λ n w. (ok [], w);
  write_all = λ bytes w. (ok tt, w);
  flush = λ w. (ok tt, w);
  sleep = λ n w. w;
  mark_rx = λ w. w;
}

look_less : (w : ℕ) → (w == 0) ≡ false → w - 1 < w
look_less w e = ground (arith, e)

clock_runs_out : Cancels ticking clock
unfolding write_all_and_flush
clock_runs_out = record {
  looks = λ w. w;
  look = look_less;
  looks-read = λ n w. omega arith;
  looks-output = λ bytes w. omega arith;
  looks-sleep = λ n w. omega arith;
  looks-mark_rx = λ w. omega arith;
}

abbrev started : Context ℕ
started = record { world = 3; statistics = zero_statistics; events = [] }

rx_worker-Returns_example : (d : Context ℕ) × (rx_worker ticking clock 4 started ≡ some d)
unfolding clock_runs_out
rx_worker-Returns_example = rx_worker-Returns ticking clock clock_runs_out 4 started (omega arith)

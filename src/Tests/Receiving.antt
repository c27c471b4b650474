-- ===== src/Tests/Receiving.antt =====
-- The RX worker (src/uart/session.rs) over a transport that brings two bytes and is then cancelled.
use glasgow_tool.Prelude.{
  ℕ, ◌≤◌, ◌≡◌, refl, sym, some, List, [], ◌∷◌, ◌++◌, take, length, arith, is_empty, not, zero, suc,
  ap, length-take, take-all,
}
use glasgow_tool.Error.{Error, Result, ok}
use glasgow_tool.Transport.{Transport, complete, failed, TransferFailureKind}
use glasgow_tool.Session.{zero_statistics, map_transfer_failure, rx_activity, rx_stopped}
use glasgow_tool.Session.Worker.{Host, Context, write_all_and_flush}
use glasgow_tool.Session.Rx.{
  deliver, after_status, after_transfer, rx_round, rx_loop, rx_report, rx_worker,
}
use glasgow_tool.Session.Rx.Laws.{RxViews, Still, RxLaws, Delivered}
use glasgow_tool.Session.Rx.Output.{RxReported, rx_worker-Delivered}
use glasgow_tool.Tests.Machine.{cable}

pub record Screen : Type 0 where
  pub arrived : List ℕ
  pub shown : List ℕ

abbrev two_bytes : List ℕ
two_bytes = 4 ∷ 5 ∷ []

-- Each read brings two bytes; the session is cancelled once any were shown.
abbrev pub feed : Transport Screen
feed = record {
  metadata = λ w. cable;
  read = λ n w. (
    complete (length (take n two_bytes)),
    two_bytes,
    record w { arrived = w.arrived ++ take n two_bytes },
  );
  write = λ bytes w. (failed 0 TransferFailureKind.would_block "busy", w);
  submit_tx = λ w. w;
  drain = λ n w. (ok tt, w);
  cancel = λ w. w;
  counters = λ w. (record { rx_errors = 0; rx_overflow = 0 }, w);
}

abbrev pub screen : Host Screen
screen = record {
  is_cancelled = λ w. (not (is_empty w.shown), w);
  read_input = λ n w. (ok [], w);
  write_all = λ bytes w. (ok tt, record w { shown = w.shown ++ bytes });
  flush = λ w. (ok tt, w);
  sleep = λ n w. w;
  mark_rx = λ w. w;
}

abbrev pub screen_views : RxViews Screen
screen_views = record { arrived = λ w. w.arrived; shown = λ w. w.shown }

abbrev still : (w : Screen) → Still screen_views w w
still w = record { same_arrived = refl; same_shown = refl }

fed_fits : (n : ℕ) → length (take n two_bytes) ≤ n
fed_fits n = omega (arith, length-take n two_bytes)

fed_covers : (n : ℕ) → length (take n two_bytes) ≤ 2
fed_covers n = omega (arith, length-take n two_bytes)

take-length : (n : ℕ) (xs : List ℕ) → take (length (take n xs)) xs ≡ take n xs
take-length zero xs = refl
take-length (suc n) [] = refl
take-length (suc n) (x ∷ xs) = ap (λ l. x ∷ l) (take-length n xs)

shows_all :
    (bytes : List ℕ) (w : Screen)
    → (k : ℕ) × (k ≤ length bytes)
      × ((write_all_and_flush screen bytes w).1.shown ≡ w.shown ++ take k bytes)
unfolding write_all_and_flush
shows_all bytes w = (
  length bytes,
  omega arith,
  ap (λ l. w.shown ++ l) (sym (take-all (length bytes) bytes (omega arith))),
)

pub screen_laws : RxLaws feed screen screen_views
unfolding write_all_and_flush
screen_laws = record {
  read_fits = λ n w. fed_fits n;
  read_covers = λ n w. fed_covers n;
  arrived-read = λ n w. ap (λ l. w.arrived ++ l) (sym (take-length n two_bytes));
  shown-read = λ n w. refl;
  arrived-output = λ bytes w. refl;
  shown-output = λ bytes w h. refl;
  shown-output_failed = shows_all;
  still-is_cancelled = still;
  still-sleep = λ n. still;
  still-mark_rx = still;
}

abbrev pub blank : Context Screen
blank = record {
  world = record { arrived = []; shown = [] };
  statistics = zero_statistics;
  events = [];
}

abbrev pub filled : Context Screen
filled = record {
  world = record { arrived = 4 ∷ 5 ∷ []; shown = 4 ∷ 5 ∷ [] };
  statistics = record zero_statistics { rx = 2 };
  events = rx_activity ∷ rx_stopped ∷ [];
}

pub receives : rx_worker feed screen 3 blank ≡ some filled
unfolding rx_worker rx_report rx_loop rx_round after_transfer deliver after_status
    write_all_and_flush map_transfer_failure
receives = refl

rx_worker-Delivered_example :
    (r : Result Error Unit) × Delivered screen_views [] [] 0 r filled
    × RxReported feed screen screen_views screen_laws r filled
rx_worker-Delivered_example =
    rx_worker-Delivered feed screen screen_views screen_laws 3 blank filled (omega arith) receives

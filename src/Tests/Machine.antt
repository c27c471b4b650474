-- ===== src/Tests/Machine.antt =====
-- A small machine that keeps what the laws of a transport ask (src/uart/transport.rs): it takes at
-- most two bytes at a time, and first answers "try again" a number of times.
use glasgow_tool.Prelude.{
  ℕ, zero, suc, ◌≤◌, ◌≡◌, refl, Bool, true, false, none, some, List, [], ◌∷◌, ◌++◌, length, take,
  drop, arith, ap, sym, append-nil, length-take,
}
use glasgow_tool.Error.{ok}
use glasgow_tool.Transport.{Transport, TransferOutcome, complete, failed, would_block, Metadata}
use glasgow_tool.Session.Worker.{Host, write_all_and_flush}
use glasgow_tool.Session.Tx.Laws.{Views, Quiet, TxLaws}

pub record Machine : Type 0 where
  pub wire : List ℕ
  pub input : List ℕ
  pub consumed : List ℕ
  pub stopped : Bool
  pub busy : ℕ

abbrev pub cable : Metadata
cable = record {
  backend = "test";
  serial = some "A1";
  path = none;
  requested_baud = 115200;
  actual_baud = 115200;
  minimum_baud = 9600;
  maximum_baud = 12_000_000;
}

abbrev accept : ℕ → List ℕ → Machine → TransferOutcome × Machine
accept zero bytes m = (complete (length (take 2 bytes)), record m { wire = m.wire ++ take 2 bytes })
accept (suc n) bytes m = (failed 0 would_block "busy", record m { busy = n })

abbrev pub machine_transport : Transport Machine
machine_transport = record {
  metadata = λ m. cable;
  read = λ n m. (failed 0 would_block "idle", [], m);
  write = λ bytes m. accept m.busy bytes m;
  submit_tx = λ m. m;
  drain = λ n m. (ok tt, m);
  cancel = λ m. record m { stopped = true };
  counters = λ m. (record { rx_errors = 0; rx_overflow = 0 }, m);
}

abbrev pub machine_host : Host Machine
machine_host = record {
  is_cancelled = λ m. (m.stopped, m);
  read_input = λ n m. (
    ok (take n m.input),
    record m { input = drop n m.input; consumed = m.consumed ++ take n m.input },
  );
  write_all = λ bytes m. (ok tt, m);
  flush = λ m. (ok tt, m);
  sleep = λ n m. m;
  mark_rx = λ m. m;
}

abbrev pub machine_views : Views Machine
machine_views = record { wire = λ m. m.wire; consumed = λ m. m.consumed; stopped = λ m. m.stopped }

abbrev unchanged : (m : Machine) → Quiet machine_views m m
unchanged m = record { same_wire = refl; same_input = refl; sticky = λ h. h }

take_whole : (bytes : List ℕ) → take (length (take 2 bytes)) bytes ≡ take 2 bytes
take_whole [] = refl
take_whole (a ∷ []) = refl
take_whole (a ∷ b ∷ rest) = refl

accept_fits : (n : ℕ) (bytes : List ℕ) (m : Machine) → (accept n bytes m).0.completed ≤ length bytes
accept_fits zero bytes m = omega (arith, length-take 2 bytes)
accept_fits (suc n) bytes m = omega arith

accept_wire :
    (n : ℕ) (bytes : List ℕ) (m : Machine)
    → (accept n bytes m).1.wire ≡ m.wire ++ take (accept n bytes m).0.completed bytes
accept_wire zero bytes m = ap (λ l. m.wire ++ l) (sym (take_whole bytes))
accept_wire (suc n) [] m = sym (append-nil m.wire)
accept_wire (suc n) (b ∷ bytes) m = sym (append-nil m.wire)

accept_input : (n : ℕ) (bytes : List ℕ) (m : Machine) → (accept n bytes m).1.consumed ≡ m.consumed
accept_input zero bytes m = refl
accept_input (suc n) bytes m = refl

accept_stopped :
    (n : ℕ) (bytes : List ℕ) (m : Machine) → m.stopped ≡ true → (accept n bytes m).1.stopped ≡ true
accept_stopped zero bytes m h = h
accept_stopped (suc n) bytes m h = h

pub machine_laws : TxLaws machine_transport machine_host machine_views
unfolding write_all_and_flush
machine_laws = record {
  write_fits = λ bytes m. accept_fits m.busy bytes m;
  wire-write = λ bytes m. accept_wire m.busy bytes m;
  input-write = λ bytes m. accept_input m.busy bytes m;
  sticky-write = λ bytes m. accept_stopped m.busy bytes m;
  wire-read_input = λ n m. refl;
  input-read_input = λ n m. refl;
  quiet-is_cancelled = unchanged;
  stopped-is_cancelled = λ m. refl;
  is_cancelled-stopped = λ m h. h;
  quiet-sleep = λ n. unchanged;
  quiet-submit_tx = unchanged;
  quiet-drain = λ n. unchanged;
  quiet-output = λ bytes. unchanged;
}

abbrev pub busy_machine : Machine
busy_machine = record { wire = 7 ∷ []; input = []; consumed = []; stopped = false; busy = 1 }

-- ===== src/Tests/Board.antt =====
-- A board that answers every register read (src/uart/glasgow/transport.rs).
use glasgow_tool.Prelude.{
  ℕ, ◌+◌, ◌≡◌, ◌≤◌, refl, false, none, some, List, [], ◌∷◌, ◌++◌, take, length, get_or, ◌==◌,
  replicate, if◌then◌else◌, arith,
}
use glasgow_tool.Error.{Error, Result, ok}
use glasgow_tool.Glasgow.Management.{
  Register, Management, read_register, register_value, command, exchange, send_packet,
  receive_response, check_response, next_serial,
}
use glasgow_tool.Glasgow.Transport.{
  GlasgowHost, GlasgowTransport, State, glasgow_read, glasgow_drain, refresh_counters,
  poll_counters, flush_pipe, drain_loop, drain_round, is_idle,
}
use glasgow_tool.Glasgow.Transport.Drains.{
  SawIdle, glasgow_drain_observed, DrainTakesTime, glasgow_drain_returns,
}
use glasgow_tool.Tests.Machine.{cable}

-- The time and the last packet.
record Board : Type 0 where
  pub time : ℕ
  pub packet : List ℕ

abbrev register_bytes_of : ℕ → List ℕ
register_bytes_of width = if width == 4 then 0 ∷ 0 ∷ 0 ∷ 128 ∷ [] else replicate width 1

abbrev board_host : GlasgowHost Board
board_host = record {
  link = record {
    write_all = λ packet w. (ok tt, record w { packet = packet });
    flush = λ w. (ok tt, w);
    read = λ n w. (ok (take 1 w.packet ++ 0 ∷ register_bytes_of (get_or w.packet 3 0)), w);
    clock = record { now = λ w. (w.time, w); sleep = λ n w. record w { time = w.time + n } };
  };
  read = λ n w. (ok (5 ∷ 6 ∷ []), w);
  write = λ bytes w. (ok (length bytes), w);
  submit = λ w. w;
  set_write_timeout = λ n w. w;
  flush = λ w. (ok tt, w);
  cancel_all = λ w. w;
  close_rx = λ w. w;
  close_tx = λ w. w;
}

abbrev state_register : Register
state_register = record {
  address = 3;
  width_bits = 32;
  storage_bytes = 4;
  endian = "little";
  access = "ro";
}

abbrev counter_register : Register
counter_register = record {
  address = 1;
  width_bits = 16;
  storage_bytes = 2;
  endian = "little";
  access = "ro";
}

abbrev board : GlasgowTransport
board = record {
  metadata = cable;
  rx_errors_register = counter_register;
  rx_overflow_register = counter_register;
  tx_state_register = state_register;
  rx_errors_baseline = 1;
  rx_overflow_baseline = 300;
  rx_errors = 0;
  rx_overflow = 0;
  last_counter_poll = 0;
  cancelled = false;
}

abbrev manager_at : ℕ → ℕ → List ℕ → Management Board
manager_at serial time packet = record {
  serial = serial;
  world = record { time = time; packet = packet };
}

abbrev start_state : State board_host
start_state = (board, manager_at 1 300_000_000 [])

abbrev read_state : State board_host
read_state = (
  record board { rx_errors = 256; rx_overflow = 0; last_counter_poll = 300_000_000 },
  manager_at 3 300_000_000 (2 ∷ 0x29 ∷ 1 ∷ 2 ∷ []),
)

reads :
    glasgow_read board_host 64 start_state
    ≡ some (record { completed = 2; failure = none }, 5 ∷ 6 ∷ [], read_state)
unfolding glasgow_read refresh_counters poll_counters read_register register_value command exchange
    send_packet receive_response check_response next_serial
reads = refl

board_drains :
    glasgow_drain board_host 3 50_000_000 start_state
    ≡ some (ok tt, manager_at 2 300_000_000 (1 ∷ 0x29 ∷ 3 ∷ 4 ∷ []))
unfolding glasgow_drain flush_pipe drain_loop drain_round is_idle read_register register_value
    command exchange send_packet receive_response check_response next_serial
board_drains = refl

glasgow_drain_observed_example :
    SawIdle board_host state_register (manager_at 2 300_000_000 (1 ∷ 0x29 ∷ 3 ∷ 4 ∷ []))
glasgow_drain_observed_example =
    glasgow_drain_observed board_host 3 50_000_000 start_state
      (manager_at 2 300_000_000 (1 ∷ 0x29 ∷ 3 ∷ 4 ∷ [])) board_drains

read_takes_time :
    (m m' : Management Board) (r : Result Error ℕ)
    → read_register board_host.link state_register m ≡ some (r, m')
    → m.world.time ≤ m'.world.time
unfolding read_register register_value command exchange send_packet receive_response check_response
read_takes_time m m' r e = ground arith

board_time : DrainTakesTime board_host state_register
board_time = record {
  time = λ w. w.time;
  now_time = λ w. refl;
  time-now = λ w. omega arith;
  time-sleep = λ w. omega arith;
  time-read_register = read_takes_time;
  time-set_write_timeout = λ n w. omega arith;
  time-flush = λ w. omega arith;
}

glasgow_drain_returns_example :
    (out : Result Error Unit × Management Board) × (glasgow_drain board_host 5 4 start_state
      ≡ some out)
glasgow_drain_returns_example =
    glasgow_drain_returns board_host 5 4 board start_state.1 board_time (omega arith) (omega arith)

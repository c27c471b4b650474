-- ===== src/Cli/Console.antt =====
-- What both commands do around a session (src/bin/common/mod.rs, and the two `run` of
-- src/bin/common/guart.rs and src/bin/common/c232uart.rs). The signal handler, the log file, the
-- terminal and the standard streams are parameters.
pub mod Terminal
use glasgow_tool.Prelude.{ℕ, Bool, String, Option, none, some, ◌+s◌}
use glasgow_tool.Error.{Error, access, protocol, Result, ok, err}
use glasgow_tool.Act.{Act, ◌>>=◌, ◌>>◌, pure, fail, give, call}
use glasgow_tool.Session.{SessionOptions, SessionReport, console_options, stream_options, from_secs}
use glasgow_tool.Session.Run.{Surroundings, run_session_observed}

pub record CommonOptions : Type 0 where
  pub serial : Option String
  pub baud : ℕ
  pub event_log : Option String

pub record StreamTiming : Type 0 where
  pub rx_idle_timeout : ℕ
  pub drain_timeout : ℕ

-- ctrlc, the file system, crossterm and stderr; `surroundings` is what a session over the port reads
-- from outside.
pub record Desk (W Port : Type 0) : Type 0 where
  pub set_handler : W → Result String Unit × W
  pub open_log : String → W → Result String Unit × W
  pub enable_raw_mode : W → Result String Unit × W
  pub disable_raw_mode : W → Result String Unit × W
  pub surroundings : Port → SessionOptions → W → Surroundings × W
  pub print_report : SessionReport → W → W

module _ {W Port : Type 0} (desk : Desk W Port) where
  unfoldable pub install_ctrl_c : Act W Unit
  install_ctrl_c =
      call (λ error. protocol ("cannot install signal handler: " +s error)) desk.set_handler

  -- `CliObserver::open`
  unfoldable pub open_observer : Option String → Act W Unit
  open_observer none = pure tt
  open_observer (some path) =
      call (λ error. access ("cannot open event log: " +s error)) (desk.open_log path)

  -- `RawTerminalGuard`: what is entered is left, whatever comes in between.
  unfoldable pub leave_raw :
      {A : Type 0} → Option (Result Error A × W) → Option (Result Error A × W)
  leave_raw none = none
  leave_raw (some (r, w)) = some (r, (desk.disable_raw_mode w).1)

  unfoldable pub with_raw_terminal : {A : Type 0} → Act W A → Act W A
  unfolding leave_raw
  with_raw_terminal body w =
      let (entered, w1) = desk.enable_raw_mode w in
      elim entered [
        | err error ↦ some (err (access ("cannot enter raw terminal mode: " +s error)), w1)
        | ok _ ↦ leave_raw (body w1)
      ]

  -- `run_session_observed` in this world; `none` while the workers have not stopped.
  unfoldable pub session_result : Port → SessionOptions → Act W SessionReport
  session_result port options w =
      let (o, w1) = desk.surroundings port options w in
      elim (run_session_observed options o).result [ none ↦ none | some r ↦ some (r, w1) ]

  unfoldable pub report_to_user : SessionReport → Act W Unit
  report_to_user report w = some (ok tt, desk.print_report report w)

  abbrev pub console_session_options : SessionOptions
  console_session_options = record {
    mode = console_options.mode;
    rx_idle_timeout = from_secs 2;
    drain_timeout = from_secs 5;
  }

  -- The session of the arm Console, and the line that tells of it
  unfoldable pub attended : Port → Act W Unit
  attended port = do report ← session_result port console_session_options; report_to_user report

  -- The arm Console
  unfoldable pub run_console : CommonOptions → Act W Port → Act W Unit
  run_console common open_port = do
    install_ctrl_c
    open_observer common.event_log
    port ← open_port
    with_raw_terminal (attended port)

  abbrev pub stream_session_options : StreamTiming → SessionOptions
  stream_session_options timing = record {
    mode = stream_options.mode;
    rx_idle_timeout = timing.rx_idle_timeout;
    drain_timeout = timing.drain_timeout;
  }

  -- The arm Stream
  unfoldable pub run_stream : CommonOptions → StreamTiming → Act W Port → Act W Unit
  run_stream common timing open_port = do
    install_ctrl_c
    open_observer common.event_log
    port ← open_port
    report ← session_result port (stream_session_options timing)
    pure tt

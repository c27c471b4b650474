-- ===== src/Tests/Commands.antt =====
-- A console session that fails, and rates on the command line (src/bin/common).
use glasgow_tool.Prelude.{◌≡◌, refl, Bool, true, false, none, some, [], ◌∷◌, arith}
use glasgow_tool.Error.{access, ok, err}
use glasgow_tool.Act.{◌>>=◌, pure, call}
use glasgow_tool.Act.Keeps.{Keeps-pure}
use glasgow_tool.Session.{console_options}
use glasgow_tool.Session.Run.{run_session_observed}
use glasgow_tool.Cli.Parsing.{parse_baud, parse_u32, unsigned, parse_digits, digit}
use glasgow_tool.Cli.Console.{
  CommonOptions, Desk, install_ctrl_c, open_observer, leave_raw, with_raw_terminal, session_result,
  report_to_user, attended, run_console,
}
use glasgow_tool.Cli.Console.Terminal.{TerminalLaws, IsRestored, run_console-EndsRestored}
use glasgow_tool.Tests.Sessions.{refusing}

-- The world is whether the terminal is raw.
abbrev desk : Desk Bool Unit
desk = record {
  set_handler = λ w. (ok tt, w);
  open_log = λ path w. (ok tt, w);
  enable_raw_mode = λ w. (ok tt, true);
  disable_raw_mode = λ w. (ok tt, false);
  surroundings = λ port options w. (refusing, w);
  print_report = λ report w. w;
}

terminal_laws : TerminalLaws desk
terminal_laws = record {
  raw = λ w. w;
  enable_err = λ w w' e p. cc;
  disable_ok = λ w w' p. ground (arith, p);
  raw-set_handler = λ w. refl;
  raw-open_log = λ path w. refl;
  raw-surroundings = λ port options w. refl;
  raw-print_report = λ report w. refl;
}

abbrev common : CommonOptions
common = record { serial = none; baud = 115200; event_log = some "log" }

runs : run_console desk common (pure tt) false ≡ some (err (access "event log full"), false)
unfolding run_console install_ctrl_c open_observer with_raw_terminal leave_raw attended
    session_result report_to_user ◌>>=◌ pure call run_session_observed console_options
runs = refl

run_console-EndsRestored_example : IsRestored desk terminal_laws false
unfolding terminal_laws
run_console-EndsRestored_example =
    run_console-EndsRestored desk terminal_laws common (pure tt) (Keeps-pure tt) false false
      (err (access "event log full")) refl runs

common_rate_parsed : parse_baud (49 ∷ 49 ∷ 53 ∷ 50 ∷ 48 ∷ 48 ∷ []) ≡ ok 115200
unfolding parse_baud parse_u32 unsigned parse_digits digit
common_rate_parsed = refl

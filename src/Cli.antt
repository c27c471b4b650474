-- ===== src/Cli.antt =====
-- The commands' own checks (src/bin/common/mod.rs, src/bin/common/c232uart.rs) and their exit codes
-- (src/bin/guart.rs, src/bin/c232uart.rs).
pub mod ExitCodes
pub mod Parsing
pub mod Float
pub mod Duration
pub mod Console
pub mod Guart
pub mod C232uart
use glasgow_tool.Prelude.{
  ℕ, Bool, true, false, ◌&&◌, Option, none, some, is_none, if◌then◌else◌, not,
}
use glasgow_tool.Error.{Error, selection, access, protocol, timeout, validation, Result, ok, err}

-- The process's exit code for an error.
unfoldable pub exit_code : Error → ℕ
exit_code (selection _) = 2
exit_code (access _) = 3
exit_code (protocol _) = 4
exit_code (timeout _) = 5
exit_code (validation _) = 6

-- `main`: an error is printed and its code returned; otherwise the code is 0.
unfoldable pub main_code : {A : Type 0} → Result Error A → ℕ
main_code (ok _) = 0
main_code (err error) = exit_code error

-- ===== src/Cli/C232uart/Refusals.antt =====
-- A path with the USB backend (src/bin/common/c232uart.rs, src/uart/c232/mod.rs).
use glasgow_tool.Prelude.{◌≡◌, some, arith}
use glasgow_tool.Error.{Error, err}
use glasgow_tool.Io.{fail}
use glasgow_tool.Act.{◌>>=◌, give}
use glasgow_tool.C232.Port.{OpenPort, Machine, open_port, open_arm}
use glasgow_tool.Cli.Console.{Desk}
use glasgow_tool.Cli.Guart.{Output}
use glasgow_tool.Cli.C232uart.{
  C232Common, C232Command, console, validate_common, validate, open_options, ListEntry, main,
}

refused_common :
    {W : Type 0} (machine : Machine W) (options : C232Common) (w : W) (e : Error)
    → validate_common options ≡ err e
    → open_port machine (open_options options) w ≡ (err e, w)
unfolding validate_common open_port open_arm fail
refused_common machine options w e h = ground (arith, h)

refused_main :
    {W : Type 0} (machine : Machine W) (desk : Desk W OpenPort) (output : Output W ListEntry)
    (command : C232Command) (w : W) (e : Error)
    → validate command ≡ err e
    → main machine desk output command w ≡ some (err e, w)
unfolding main ◌>>=◌ give
refused_main machine desk output command w e h = ground (arith, h)

-- A command line that is refused is refused before anything is done, and with the error with which the
-- library would have refused to open the port.
pub validate_agrees :
    {W : Type 0} (machine : Machine W) (desk : Desk W OpenPort) (output : Output W ListEntry)
    (options : C232Common) (w : W) (e : Error)
    → validate (console options) ≡ err e
    → (main machine desk output (console options) w ≡ some (err e, w))
      × (open_port machine (open_options options) w ≡ (err e, w))
unfolding validate
validate_agrees machine desk output options w e h =
    (refused_main machine desk output (console options) w e h, refused_common machine options w e h)

-- ===== src/Cli/C232uart.antt =====
-- The command `c232uart` (src/bin/common/c232uart.rs). clap, serde_json and stdout are parameters.
pub mod Refusals
use glasgow_tool.Prelude.{
  ℕ, Bool, true, false, String, Option, none, some, List, [], ◌∷◌, map, if◌then◌else◌, ◌+s◌,
}
use glasgow_tool.Error.{Error, access, protocol, selection, Result, ok, err}
use glasgow_tool.Io.{Io}
use glasgow_tool.Act.{Act, ◌>>=◌, ◌>>◌, pure, fail, give, call}
use glasgow_tool.C232.Port.{
  Backend, vcp, usb, DeviceInfo, OpenOptions, OpenPort, Machine, list_devices,
}
use glasgow_tool.C232.Port as Port
use glasgow_tool.Cli.Console.{CommonOptions, StreamTiming, Desk, run_console, run_stream}
use glasgow_tool.Cli.Guart.{Output, hex_word}

-- `C232Common`; its backend is the library's, by `From`.
pub record C232Common : Type 0 where
  pub backend : Backend
  pub port : Option String
  pub common : CommonOptions

pub data C232Command : Type 0 where
  list : Bool → C232Command
  console : C232Common → C232Command
  stream : C232Common → StreamTiming → C232Command

unfoldable pub validate_common : C232Common → Result Error Unit
validate_common options = elim options.backend [
  | vcp ↦ ok tt
  | usb ↦ elim options.port [
    | none ↦ ok tt
    | some _ ↦ err (selection "--port is valid only with --backend vcp")
  ]
]

-- `C232Cli::validate`
unfoldable pub validate : C232Command → Result Error Unit
unfolding validate_common
validate (list json) = ok tt
validate (console options) = validate_common options
validate (stream options timing) = validate_common options

pub record ListEntry : Type 0 where
  pub serial : String
  pub vid : String
  pub pid : String
  pub product : String
  pub port : String
  pub stable_path : Option String

unfoldable pub entry_of : DeviceInfo → ListEntry
entry_of device = record {
  serial = device.serial;
  vid = hex_word device.vendor_id;
  pid = hex_word device.product_id;
  product = device.product;
  port = device.path;
  stable_path = device.stable_path;
}

unfoldable pub display_path : DeviceInfo → String
display_path device = elim device.stable_path [ none ↦ device.path | some path ↦ path ]

unfoldable pub line_of : DeviceInfo → String
line_of device =
    device.serial
    +s " "
    +s hex_word device.vendor_id
    +s ":"
    +s hex_word device.product_id
    +s " "
    +s display_path device
    +s " "
    +s device.product

-- A call that always returns
abbrev pub always : {W A : Type 0} → Io W A → Act W A
always m = call (λ error. error) m

module _ {W : Type 0} (output : Output W ListEntry) where
  unfoldable pub write_error : String → Error
  write_error error = access ("cannot write device list: " +s error)

  unfoldable pub print_lines : List DeviceInfo → Act W Unit
  print_lines [] = pure tt
  print_lines (device ∷ devices) = do
    call write_error (output.write_line (line_of device))
    print_lines devices

  unfoldable pub print_json : List DeviceInfo → Act W Unit
  print_json devices = do
    call (λ error. protocol ("cannot encode device list: " +s error))
        (output.write_json (map entry_of devices))
    call write_error (output.write_line "")

  unfoldable pub print_devices : Machine W → Bool → Act W Unit
  print_devices machine json = do
    devices ← always (list_devices machine vcp)
    if json then print_json devices else print_lines devices

abbrev pub open_options : C232Common → OpenOptions
open_options options = record {
  backend = options.backend;
  serial = options.common.serial;
  port = options.port;
  baud = options.common.baud;
}

module _ {W : Type 0} (machine : Machine W) where
  unfoldable pub open_cable : C232Common → Act W OpenPort
  open_cable options = always (Port.open_port machine (open_options options))

  unfoldable pub run : Desk W OpenPort → Output W ListEntry → C232Command → Act W Unit
  unfolding open_cable
  run desk output (list json) = print_devices output machine json
  run desk output (console options) = run_console desk options.common (open_cable options)
  run desk output (stream options timing) =
      run_stream desk options.common timing (open_cable options)

  -- `main`: the command is checked, and then run.
  unfoldable pub main : Desk W OpenPort → Output W ListEntry → C232Command → Act W Unit
  unfolding validate
  main desk output command = do give (validate command); run desk output command

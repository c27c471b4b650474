-- ===== src/Cli/Guart.antt =====
-- The command `guart` (src/bin/common/guart.rs). clap, serde_json and stdout are parameters.
use glasgow_tool.Prelude.{
  ℕ, ◌/◌, ◌%◌, Bool, String, Option, none, some, List, [], ◌∷◌, map, if◌then◌else◌, ◌+s◌, decimal,
  hex_byte,
}
use glasgow_tool.Error.{Error, access, protocol, Result}
use glasgow_tool.Act.{Act, ◌>>=◌, ◌>>◌, pure, call}
use glasgow_tool.Glasgow.Device.{DeviceInfo}
use glasgow_tool.Glasgow.Firmware.{boards_now}
use glasgow_tool.Glasgow.Transport.{GlasgowTransport}
use glasgow_tool.Glasgow.Provide.{Provider, OpenOptions}
use glasgow_tool.Glasgow.Provide as Provide
use glasgow_tool.Cli.Console.{CommonOptions, StreamTiming, Desk, run_console, run_stream}

pub data GuartCommand : Type 0 where
  list : Bool → GuartCommand
  console : CommonOptions → GuartCommand
  stream : CommonOptions → StreamTiming → GuartCommand

pub record ListEntry : Type 0 where
  pub serial : Option String
  pub vid : String
  pub pid : String
  pub revision : String
  pub api_level : ℕ
  pub api_compatible : Bool
  pub path : String

-- serde_json over stdout, and lines of text on stdout
pub record Output (W Entry : Type 0) : Type 0 where
  pub write_json : List Entry → W → Result String Unit × W
  pub write_line : String → W → Result String Unit × W

-- `{:04x}` of a u16
abbrev pub hex_word : ℕ → String
hex_word n = hex_byte (n / 256) +s hex_byte (n % 256)

unfoldable pub entry_of : DeviceInfo → ListEntry
entry_of device = record {
  serial = device.serial;
  vid = hex_word device.vendor_id;
  pid = hex_word device.product_id;
  revision = device.revision;
  api_level = device.api_level;
  api_compatible = device.api_compatible;
  path = device.path;
}

serial_or_none : Option String → String
serial_or_none none = "<no serial>"
serial_or_none (some serial) = serial

unfoldable pub line_of : DeviceInfo → String
unfolding serial_or_none
line_of device =
    serial_or_none device.serial
    +s " "
    +s device.path
    +s " rev"
    +s device.revision
    +s " API "
    +s decimal device.api_level
    +s " ("
    +s (if device.api_compatible then "compatible" else "firmware update required")
    +s ")"

module _ {W : Type 0} (output : Output W ListEntry) where
  unfoldable pub write_error : String → Error
  write_error error = access ("cannot write Glasgow list: " +s error)

  unfoldable pub print_lines : List DeviceInfo → Act W Unit
  print_lines [] = pure tt
  print_lines (device ∷ devices) = do
    call write_error (output.write_line (line_of device))
    print_lines devices

  unfoldable pub print_json : List DeviceInfo → Act W Unit
  print_json devices = do
    call (λ error. protocol ("cannot encode Glasgow list: " +s error))
        (output.write_json (map entry_of devices))
    call write_error (output.write_line "")

  unfoldable pub print_devices : Provider W → Bool → Act W Unit
  print_devices provider json = do
    devices ← call (λ error. error) (boards_now provider.bus)
    if json then print_json devices else print_lines devices

module _ {W : Type 0} (provider : Provider W) where
  unfoldable pub open_glasgow : ℕ → CommonOptions → Act W (GlasgowTransport × ℕ)
  open_glasgow fuel common =
      Provide.open_port provider fuel (record { serial = common.serial; baud = common.baud })

  unfoldable pub run :
      Desk W (GlasgowTransport × ℕ) → Output W ListEntry → ℕ → GuartCommand → Act W Unit
  unfolding open_glasgow
  run desk output fuel (list json) = print_devices output provider json
  run desk output fuel (console common) = run_console desk common (open_glasgow fuel common)
  run desk output fuel (stream common timing) =
      run_stream desk common timing (open_glasgow fuel common)

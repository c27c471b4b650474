-- ===== src/Tests/Cables.antt =====
-- Two serial ports of which one is a cable (src/uart/c232/vcp.rs), and a drain over its driver.
use glasgow_tool.Prelude.{
  ℕ, ◌+◌, ◌-◌, sort_by, insert_sorted, ◌≡◌, refl, false, none, some, List, [], ◌∷◌, length, arith,
}
use glasgow_tool.Error.{Error, Result, ok, err, ErrorKind, IoError}
use glasgow_tool.Poll.{poll, Advances}
use glasgow_tool.Transport.{port_read, port_write}
use glasgow_tool.C232.Devices.{
  VcpDevice, UsbMetadata, SerialPortInfo, System, ftdi_vid, ftdi_pid, product_name, identity,
  is_cable, identify, identified, sorted, dedup_after, deduped, list_devices, same_path,
  serial_matches, port_matches, is_meant, meant, the_one, select_device,
}
use glasgow_tool.C232.Paths.{split_path, plain_names, components, path_eq}
use glasgow_tool.C232.Devices.Fits.{FitsAlone}
use glasgow_tool.C232.Devices.Selection.{IsFrom, selected-IsFrom}
use glasgow_tool.C232.Vcp.{
  SerialHost, VcpTransport, drain_poll, io_outcome, vcp_drain, queue_probe, still_queued,
}
use glasgow_tool.C232.Vcp.Kinds.{kinds_kept}
use glasgow_tool.C232.Vcp.Drains.{vcp_drain_observed, vcp_drain_returns}
use glasgow_tool.Tests.Machine.{cable}

abbrev usb_cable : UsbMetadata
usb_cable = record {
  vid = some ftdi_vid;
  pid = some ftdi_pid;
  serial = some "FT1";
  product = some product_name;
}

abbrev no_usb : UsbMetadata
no_usb = record { vid = none; pid = none; serial = none; product = none }

-- Port 1 is the cable, though serialport does not say so.
abbrev pub small_system : System
small_system = record {
  usb_metadata = λ name. usb_cable;
  stable_path = λ name. some "/dev/serial/by-id/FT1";
  canonicalize = λ path. none;
}

abbrev two_ports : List SerialPortInfo
two_ports =
    record { port_name = "/dev/ttyUSB1"; usb = none }
    ∷ record { port_name = "/dev/ttyS0"; usb = some (record usb_cable { product = some "other" }) }
    ∷ []

abbrev the_cable : VcpDevice
the_cable = record {
  serial = "FT1";
  vid = "0403";
  pid = "6014";
  product = product_name;
  port = "/dev/ttyUSB1";
  stable_path = some "/dev/serial/by-id/FT1";
}

listed : list_devices small_system (ok two_ports) ≡ ok (the_cable ∷ [])
unfolding list_devices identified identify identity is_cable sorted sort_by insert_sorted deduped
    dedup_after
listed = refl

selected :
    select_device small_system (the_cable ∷ []) (some "FT1") (some "/dev/serial//by-id/FT1")
    ≡ ok the_cable
unfolding select_device meant is_meant serial_matches port_matches same_path path_eq components
    split_path plain_names the_one
selected = refl

selected-IsFrom_example :
    IsFrom small_system two_ports the_cable
    × FitsAlone small_system (some "FT1") (some "/dev/serial//by-id/FT1") (the_cable ∷ []) the_cable
selected-IsFrom_example =
    selected-IsFrom small_system two_ports (the_cable ∷ []) (some "FT1")
      (some "/dev/serial//by-id/FT1") the_cable listed selected

-- The time, and the bytes that are still queued.
pub record Line : Type 0 where
  pub time : ℕ
  pub queued : ℕ

abbrev pub line_host : SerialHost Line
line_host = record {
  open_port = λ path baud w. (ok tt, w);
  write_data_terminal_ready = λ level w. (ok tt, w);
  write_request_to_send = λ level w. (ok tt, w);
  clear_input = λ w. (ok tt, w);
  try_clone = λ w. (ok tt, w);
  read = λ capacity w. (ok (5 ∷ []), w);
  write = λ bytes w. (ok (length bytes), w);
  bytes_to_write = λ w. (ok w.queued, record w { queued = w.queued - 1 });
  clock = record { now = λ w. (w.time, w); sleep = λ n w. record w { time = w.time + n } };
}

abbrev open_vcp : VcpTransport
open_vcp = record { metadata = cable; cancelled = false }

abbrev line_at : ℕ → ℕ → Line
line_at time queued = record { time = time; queued = queued }

line_drains :
    vcp_drain line_host 5 50_000_000 (open_vcp, line_at 0 2) ≡ some (ok tt, line_at 20_000_000 0)
unfolding vcp_drain queue_probe poll
line_drains = refl

vcp_drain_observed_example :
    (w : Line) × (line_host.bytes_to_write w ≡ (ok 0, line_at 20_000_000 0))
vcp_drain_observed_example =
    vcp_drain_observed line_host 5 50_000_000 (open_vcp, line_at 0 2) (line_at 20_000_000 0)
      line_drains

line_time :
    Advances line_host.clock (queue_probe line_host open_vcp) drain_poll 4 (still_queued open_vcp 4)
unfolding queue_probe
line_time = record {
  time = λ w. w.time;
  now_time = λ w. refl;
  time-now = λ w. omega arith;
  time-sleep = λ w. omega arith;
  time-probe = λ w. omega arith;
}

vcp_drain_returns_example :
    (out : Result Error Unit × Line) × (vcp_drain line_host 5 4 (open_vcp, line_at 0 2) ≡ some out)
vcp_drain_returns_example =
    vcp_drain_returns line_host 5 4 open_vcp (line_at 0 2) line_time (omega arith)

abbrev unplugged : IoError
unplugged = record { kind = ErrorKind.broken_pipe; message = "gone" }

kinds_kept_example :
    (port_read 4 (io_outcome (err unplugged))
      ≡ err (record { kind = ErrorKind.not_connected; message = "gone" }))
    × (port_write 4 (io_outcome (err unplugged))
        ≡ err (record { kind = ErrorKind.not_connected; message = "gone" }))
kinds_kept_example = kinds_kept 4 unplugged

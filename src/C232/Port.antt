-- ===== src/C232/Port.antt =====
-- `list_devices` and `open` of src/uart/c232/mod.rs over its two backends.
pub mod Chosen
use glasgow_tool.Prelude.{ℕ, Bool, true, false, String, Option, none, some, List, [], ◌∷◌, map}
use glasgow_tool.Error.{Error, selection, Result, ok, err}
use glasgow_tool.Io.{Io, ◌>>=◌, ◌>>◌, pure, fail, give}
use glasgow_tool.Transport.{Metadata}
use glasgow_tool.C232.Devices.{VcpDevice, SerialPortInfo, System, ftdi_vid, ftdi_pid, product_name}
use glasgow_tool.C232.Devices as Vcp
use glasgow_tool.C232.Vcp.{SerialHost, VcpTransport, vcp_open}
use glasgow_tool.C232.Usb.{UsbTransport}
use glasgow_tool.C232.Discovery.{UsbDeviceInfo}
use glasgow_tool.C232.Open.{UsbBus, usb_open}
use glasgow_tool.C232.Open as Usb

pub data Backend : Type 0 where
  vcp usb : Backend

pub record DeviceInfo : Type 0 where
  pub backend : Backend
  pub serial : String
  pub vendor_id : ℕ
  pub product_id : ℕ
  pub product : String
  pub path : String
  pub stable_path : Option String

pub record OpenOptions : Type 0 where
  pub backend : Backend
  pub serial : Option String
  pub port : Option String
  pub baud : ℕ

abbrev pub default_options : OpenOptions
default_options = record { backend = vcp; serial = none; port = none; baud = 115_200 }

-- A port over one of the two transports.
pub data OpenPort : Type 0 where
  over_vcp : VcpTransport → OpenPort
  over_usb : UsbTransport → OpenPort

abbrev pub metadata_of : OpenPort → Metadata
metadata_of (over_vcp t) = t.metadata
metadata_of (over_usb t) = t.metadata

-- serialport, the file system and the USB bus, on one world
pub record Machine (W : Type 0) : Type 0 where
  pub system : System
  pub available_ports : W → Result String (List SerialPortInfo) × W
  pub serial : SerialHost W
  pub bus : UsbBus W

unfoldable pub of_vcp : VcpDevice → DeviceInfo
of_vcp device = record {
  backend = vcp;
  serial = device.serial;
  vendor_id = ftdi_vid;
  product_id = ftdi_pid;
  product = device.product;
  path = device.port;
  stable_path = device.stable_path;
}

unfoldable pub of_usb : UsbDeviceInfo → DeviceInfo
of_usb device = record {
  backend = usb;
  serial = device.serial;
  vendor_id = ftdi_vid;
  product_id = ftdi_pid;
  product = product_name;
  path = device.path;
  stable_path = none;
}

module _ {W : Type 0} (machine : Machine W) where
  unfoldable pub vcp_devices : Io W (List VcpDevice)
  vcp_devices w =
      let (ports, w1) = machine.available_ports w in (Vcp.list_devices machine.system ports, w1)

  unfoldable pub list_devices : Backend → Io W (List DeviceInfo)
  unfolding of_vcp of_usb
  list_devices vcp = do devices ← vcp_devices; pure (map of_vcp devices)
  list_devices usb = do devices ← Usb.list_devices machine.bus; pure (map of_usb devices)

  unfoldable pub open_vcp : OpenOptions → Io W OpenPort
  open_vcp options = do
    devices ← vcp_devices
    selected ← give (Vcp.select_device machine.system devices options.serial options.port)
    transport ← vcp_open machine.serial selected options.baud options.port
    pure (over_vcp transport)

  unfoldable pub open_usb : OpenOptions → Io W OpenPort
  open_usb options = do
    transport ← usb_open machine.bus options.serial options.baud
    pure (over_usb transport)

  -- The two arms of `open`'s match
  unfoldable pub open_arm : Backend → Option String → OpenOptions → Io W OpenPort
  open_arm vcp port options = open_vcp options
  open_arm usb none options = open_usb options
  open_arm usb (some _) options = fail (selection "--port is valid only with --backend vcp")

  unfoldable pub open_port : OpenOptions → Io W OpenPort
  unfolding open_arm
  open_port options = open_arm options.backend options.port options

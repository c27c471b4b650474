-- ===== src/C232/Port/Chosen.antt =====
-- The port that is opened is the one that was asked for (src/uart/c232/mod.rs).
use glasgow_tool.Prelude.{ℕ, ◌≡◌, ◌⊎◌, String, Option, none, some, List, [], ◌∷◌, arith}
use glasgow_tool.Error.{Error, selection, ok, err}
use glasgow_tool.Io.{fail}
use glasgow_tool.Transport.{Metadata}
use glasgow_tool.C232.Baud.{BaudResult, ftdi_high_speed_baud}
use glasgow_tool.C232.Devices as Vcp
use glasgow_tool.C232.Devices.{VcpDevice, SerialPortInfo}
use glasgow_tool.C232.Devices.Fits.{Fits}
use glasgow_tool.C232.Devices.Selection.{IsFrom}
use glasgow_tool.C232.Discovery.{UsbInfo}
use glasgow_tool.C232.Open as Usb
use glasgow_tool.C232.Open.{UsbBus}
use glasgow_tool.C232.Port.{
  vcp, usb, OpenOptions, OpenPort, over_vcp, over_usb, Machine, open_arm, open_port,
}

-- One of these devices on the bus is a C232HD cable with this serial number.
abbrev pub OnBus : List UsbInfo → String → Type 0
OnBus [] serial = ⊥
OnBus (info ∷ infos) serial =
    ((info.vendor_id ≡ 0x0403)
      × (info.product_id ≡ 0x6014)
      × (info.product_string ≡ some "C232HD-DDHSP-0")
      × (info.serial_number ≡ some serial))
    ⊎ OnBus infos serial

-- The serial number is the one that was asked for, if one was.
abbrev pub HasSerial : Option String → String → Type 0
HasSerial none own = Unit
HasSerial (some serial) own = own ≡ serial

-- The rate that was asked for, and the one that the chip makes of it.
abbrev pub HasRate : ℕ → Metadata → Type 0
HasRate baud metadata =
    (metadata.requested_baud ≡ baud)
    × (r : BaudResult) × (ftdi_high_speed_baud baud ≡ ok r)
    × (metadata.actual_baud ≡ r.actual)

module _ {W : Type 0} (bus : UsbBus W) where
  -- The transport is for a cable of the bus, as the bus was listed first.
  abbrev pub IsUsbCable : W → Option String → Metadata → Type 0
  IsUsbCable w serial metadata =
      (infos : List UsbInfo) × (w1 : W) × (own : String) × (bus.list_devices w ≡ (ok infos, w1))
      × OnBus infos own
      × HasSerial serial own
      × (metadata.serial ≡ some own)

module _ {W : Type 0} (machine : Machine W) where
  -- The transport is for a cable among the serial ports, as they were listed first, which fits what
  -- was asked for.
  abbrev pub IsVcpCable : W → OpenOptions → Metadata → Type 0
  IsVcpCable w options metadata =
      (ports : List SerialPortInfo) × (w1 : W) × (d : VcpDevice) × (machine.available_ports w
        ≡ (ok ports, w1))
      × IsFrom machine.system ports d
      × Fits machine.system options.serial options.port d
      × (metadata.serial ≡ some d.serial)

  -- What a port is for, on either backend.
  abbrev pub IsAskedFor : W → OpenOptions → OpenPort → Type 0
  IsAskedFor w options (over_vcp t) =
      (options.backend ≡ vcp) × IsVcpCable w options t.metadata × HasRate options.baud t.metadata
  IsAskedFor w options (over_usb t) =
      (options.backend ≡ usb)
      × IsUsbCable machine.bus w options.serial t.metadata
      × HasRate options.baud t.metadata

  -- A path for the USB backend is refused before anything is asked of the system.
  pub usb_path_refused :
      (options : OpenOptions) (path : String) (w : W)
      → options.backend ≡ usb
      → options.port ≡ some path
      → (x : Error) × (open_port machine options w ≡ (err x, w))
  unfolding open_port open_arm fail
  usb_path_refused options path w b p =
      (selection "--port is valid only with --backend vcp", ground (arith, b, p))

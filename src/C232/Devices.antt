-- ===== src/C232/Devices.antt =====
-- Which serial ports are C232HD cables, and which one is meant (src/uart/c232/vcp.rs,
-- src/uart/c232/mod.rs). serialport's enumeration, sysfs and the resolution of paths are parameters;
-- C232/Sysfs gives the latter two for Linux.
pub mod Fits
pub mod Selection
use Prim.Native.Nat.{Ordering}
use Prim.Native.String.{compare}
use text.Mathlib.Text
use glasgow_tool.Prelude.{
  ℕ, Bool, true, false, ◌&&◌, ◌||◌, not, String, Option, none, some, List, [], ◌∷◌, ◌==◌,
  if◌then◌else◌, ◌+s◌, first_then, sort_by,
}
use glasgow_tool.C232.Paths.{path_eq}
use glasgow_tool.Error.{Error, access, selection, Result, ok, err, map_err}

abbrev pub ftdi_vid : ℕ
ftdi_vid = 0x0403

abbrev pub ftdi_pid : ℕ
ftdi_pid = 0x6014

abbrev pub product_name : String
product_name = "C232HD-DDHSP-0"

pub record VcpDevice : Type 0 where
  pub serial : String
  pub vid : String
  pub pid : String
  pub product : String
  pub port : String
  pub stable_path : Option String

-- The identity of a USB device, as sysfs or serialport gives it.
pub record UsbMetadata : Type 0 where
  pub vid : Option ℕ
  pub pid : Option ℕ
  pub serial : Option String
  pub product : Option String

-- serialport's `SerialPortInfo`; `usb` is there for a USB port.
pub record SerialPortInfo : Type 0 where
  pub port_name : String
  pub usb : Option UsbMetadata

-- What this part asks of the system: `linux_usb_metadata`, `stable_path` and `fs::canonicalize`.
pub record System : Type 0 where
  pub usb_metadata : String → UsbMetadata
  pub stable_path : String → Option String
  pub canonicalize : String → Option String

-- `Option::or`
abbrev pub or_else {ℓ} : {A : Type ℓ} → Option A → Option A → Option A
or_else (some a) b = some a
or_else none b = b

-- `usb.as_ref().and_then(field)`
abbrev pub usb_field {ℓ} : {A : Type ℓ} → (UsbMetadata → Option A) → Option UsbMetadata → Option A
usb_field field none = none
usb_field field (some usb) = field usb

abbrev pub is_number : ℕ → Option ℕ → Bool
is_number n none = false
is_number n (some m) = m == n

abbrev pub is_text : String → Option String → Bool
is_text s none = false
is_text s (some t) = Text.◌==◌ t s

-- The identity of a port: what serialport knows, and else sysfs.
unfoldable pub identity : System → SerialPortInfo → UsbMetadata
identity system port =
    let sysfs = system.usb_metadata port.port_name in
    record {
      vid = or_else (usb_field (λ u. u.vid) port.usb) sysfs.vid;
      pid = or_else (usb_field (λ u. u.pid) port.usb) sysfs.pid;
      serial = or_else (usb_field (λ u. u.serial) port.usb) sysfs.serial;
      product = or_else (usb_field (λ u. u.product) port.usb) sysfs.product;
    }

unfoldable pub is_cable : UsbMetadata → Bool
is_cable usb =
    is_number ftdi_vid usb.vid && is_number ftdi_pid usb.pid && is_text product_name usb.product

-- The body of the loop over the ports: a device, or `continue`.
unfoldable pub identify : System → SerialPortInfo → Option VcpDevice
unfolding identity is_cable
identify system port =
    let usb = identity system port in
    if not (is_cable usb) then none else elim usb.serial [
      | none ↦ none
      | some serial ↦ some (record {
        serial = serial;
        vid = "0403";
        pid = "6014";
        product = product_name;
        port = port.port_name;
        stable_path = system.stable_path port.port_name;
      })
    ]

unfoldable pub identified : System → List SerialPortInfo → List VcpDevice
identified system [] = []
identified system (port ∷ ports) =
    let rest = identified system ports in
    elim (identify system port) [ none ↦ rest | some device ↦ device ∷ rest ]

-- `(&left.serial, &left.port).cmp(&(&right.serial, &right.port))`
unfoldable pub device_order : VcpDevice → VcpDevice → Ordering
device_order left right =
    first_then (compare left.serial right.serial) (compare left.port right.port)

unfoldable pub sorted : List VcpDevice → List VcpDevice
unfolding device_order sort_by
sorted devices = sort_by device_order devices

unfoldable pub same_device : VcpDevice → VcpDevice → Bool
same_device left right = Text.◌==◌ left.serial right.serial && Text.◌==◌ left.port right.port

-- The devices after `last`, those left out that are the same as the one kept before them.
unfoldable pub dedup_after : VcpDevice → List VcpDevice → List VcpDevice
unfolding same_device
dedup_after last [] = []
dedup_after last (device ∷ devices) =
    let skipped = dedup_after last devices in
    let kept = dedup_after device devices in
    if same_device device last then skipped else device ∷ kept

-- `dedup_by`
unfoldable pub deduped : List VcpDevice → List VcpDevice
unfolding dedup_after
deduped [] = []
deduped (device ∷ devices) = device ∷ dedup_after device devices

unfoldable pub list_devices :
    System → Result String (List SerialPortInfo) → Result Error (List VcpDevice)
list_devices system (err error) = err (access ("cannot enumerate serial ports: " +s error))
list_devices system (ok ports) = ok (deduped (sorted (identified system ports)))

-- The same path, or two names of one file.
unfoldable pub same_path : System → String → String → Bool
unfolding path_eq
same_path system left right = path_eq left right || elim (system.canonicalize left) [
  | none ↦ false
  | some l ↦ elim (system.canonicalize right) [ none ↦ false | some r ↦ path_eq l r ]
]

unfoldable pub serial_matches : Option String → VcpDevice → Bool
serial_matches none device = true
serial_matches (some serial) device = Text.◌==◌ device.serial serial

unfoldable pub port_matches : System → Option String → VcpDevice → Bool
unfolding same_path
port_matches system none device = true
port_matches system (some port) device =
    same_path system device.port port
    || elim device.stable_path [ none ↦ false | some stable ↦ same_path system stable port ]

-- Both filters.
unfoldable pub is_meant : System → Option String → Option String → VcpDevice → Bool
is_meant system serial port device = serial_matches serial device && port_matches system port device

unfoldable pub meant : System → Option String → Option String → List VcpDevice → List VcpDevice
unfolding is_meant
meant system serial port [] = []
meant system serial port (device ∷ devices) =
    let rest = meant system serial port devices in
    if is_meant system serial port device then device ∷ rest else rest

unfoldable pub nothing_found : Option String → Option String → Error
nothing_found (some _) (some _) =
    selection "--serial and --port do not identify the same C232HD-DDHSP-0"
nothing_found _ _ = selection "no matching C232HD-DDHSP-0 was found"

unfoldable pub the_one : Option String → Option String → List VcpDevice → Result Error VcpDevice
unfolding nothing_found
the_one serial port [] = err (nothing_found serial port)
the_one serial port (device ∷ []) = ok device
the_one serial port (_ ∷ _ ∷ _) =
    err (selection "multiple C232HD-DDHSP-0 devices match; specify --serial")

unfoldable pub select_device :
    System → List VcpDevice → Option String → Option String → Result Error VcpDevice
unfolding meant the_one
select_device system devices serial port = the_one serial port (meant system serial port devices)

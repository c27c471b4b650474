-- ===== src/C232/Discovery.antt =====
-- The search for the cable and its endpoints (src/uart/c232/usb.rs): which of the devices on the bus
-- are cables, in which order they are listed, which one is chosen, and where its endpoints are.
use Prim.Native.Nat.{Ordering}
use Prim.Native.String.{compare}
use text.Mathlib.Text
use glasgow_tool.Prelude.{
  ℕ, Bool, true, ◌&&◌, not, String, Option, none, some, List, [], ◌∷◌, ◌==◌, if◌then◌else◌,
  first_then,
}
use glasgow_tool.Error.{Error, protocol, selection, Result, ok, err}
use glasgow_tool.C232.Devices.{ftdi_vid, ftdi_pid, product_name, is_text}

-- nusb's description of a device on the bus
pub record UsbInfo : Type 0 where
  pub vendor_id : ℕ
  pub product_id : ℕ
  pub product_string : Option String
  pub serial_number : Option String
  pub bus_id : String

pub record UsbDeviceInfo : Type 0 where
  pub serial : String
  pub path : String

pub record EndpointDescriptor : Type 0 where
  pub is_bulk : Bool
  pub is_in : Bool
  pub address : ℕ
  pub max_packet_size : ℕ

pub record AltSetting : Type 0 where
  pub alternate_setting : ℕ
  pub endpoints : List EndpointDescriptor

pub record InterfaceDescriptor : Type 0 where
  pub interface_number : ℕ
  pub alt_settings : List AltSetting

unfoldable pub is_cable_info : UsbInfo → Bool
is_cable_info info =
    (info.vendor_id == ftdi_vid)
    && (info.product_id == ftdi_pid)
    && is_text product_name info.product_string

-- `filter` and `filter_map`
unfoldable pub usb_cables : List UsbInfo → List UsbDeviceInfo
unfolding is_cable_info
usb_cables [] = []
usb_cables (info ∷ infos) =
    let rest = usb_cables infos in
    if is_cable_info info
    then elim info.serial_number [
      | none ↦ rest
      | some serial ↦ record { serial = serial; path = info.bus_id } ∷ rest
    ]
    else rest

unfoldable pub usb_device_order : UsbDeviceInfo → UsbDeviceInfo → Ordering
usb_device_order left right =
    first_then (compare left.serial right.serial) (compare left.path right.path)

-- `serial.is_none_or(|serial| device.serial == serial)`
unfoldable pub usb_match : Option String → UsbDeviceInfo → Bool
usb_match none device = true
usb_match (some serial) device = Text.◌==◌ device.serial serial

unfoldable pub usb_matches : Option String → List UsbDeviceInfo → List UsbDeviceInfo
unfolding usb_match
usb_matches serial [] = []
usb_matches serial (device ∷ devices) =
    let rest = usb_matches serial devices in if usb_match serial device then device ∷ rest else rest

unfoldable pub the_usb_one : List UsbDeviceInfo → Result Error UsbDeviceInfo
the_usb_one [] = err (selection "no matching C232HD-DDHSP-0 USB device was found")
the_usb_one (device ∷ []) = ok device
the_usb_one (_ ∷ _ ∷ _) = err (selection "multiple C232HD-DDHSP-0 devices match; specify --serial")

-- The addresses of the two bulk endpoints and a packet size, as the loop over the endpoints sets them.
pub record Found : Type 0 where
  pub rx : Option ℕ
  pub tx : Option ℕ
  pub packet : Option ℕ

unfoldable pub look_at : EndpointDescriptor → Found → Found
look_at endpoint found =
    if not endpoint.is_bulk
    then found
    else if endpoint.is_in
    then record found { rx = some endpoint.address; packet = some endpoint.max_packet_size }
    else record found { tx = some endpoint.address; packet = some endpoint.max_packet_size }

unfoldable pub look_at_all : List EndpointDescriptor → Found → Found
unfolding look_at
look_at_all [] found = found
look_at_all (endpoint ∷ endpoints) found = look_at_all endpoints (look_at endpoint found)

unfoldable pub complete_found : Found → Option (ℕ × ℕ × ℕ)
complete_found found = elim found.rx [
  | none ↦ none
  | some rx ↦ elim found.tx [
    | none ↦ none
    | some tx ↦ elim found.packet [ none ↦ none | some packet ↦ some (rx, tx, packet) ]
  ]
]

-- The first of these, if it is there, and else the second.
abbrev or_next {ℓ} : {A : Type ℓ} → Option A → Option A → Option A
or_next (some a) next = some a
or_next none next = next

unfoldable pub in_alternates : List AltSetting → Option (ℕ × ℕ × ℕ)
unfolding look_at_all complete_found
in_alternates [] = none
in_alternates (alternate ∷ alternates) =
    let next = in_alternates alternates in
    if alternate.alternate_setting == 0
    then or_next
        (complete_found
          (look_at_all alternate.endpoints (record { rx = none; tx = none; packet = none })))
        next
    else next

unfoldable pub in_interfaces : List InterfaceDescriptor → Option (ℕ × ℕ × ℕ)
unfolding in_alternates
in_interfaces [] = none
in_interfaces (interface ∷ interfaces) =
    let next = in_interfaces interfaces in
    if interface.interface_number == 0
    then or_next (in_alternates interface.alt_settings) next
    else next

unfoldable pub in_configurations : List (List InterfaceDescriptor) → Option (ℕ × ℕ × ℕ)
unfolding in_interfaces
in_configurations [] = none
in_configurations (configuration ∷ configurations) =
    or_next (in_interfaces configuration) (in_configurations configurations)

unfoldable pub discover_endpoints : List (List InterfaceDescriptor) → Result Error (ℕ × ℕ × ℕ)
unfolding in_configurations
discover_endpoints configurations = elim (in_configurations configurations) [
  | none ↦ err (protocol "C232HD bulk endpoint descriptors are missing")
  | some found ↦ ok found
]

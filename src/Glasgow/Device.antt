-- ===== src/Glasgow/Device.antt =====
-- Descriptors of Glasgow boards and their selection (src/uart/glasgow/device.rs).
pub mod Selection
use Prim.Native.Nat.{Ordering}
use Prim.Native.String.{compare}
use text.Mathlib.Text
use glasgow_tool.Prelude.{
  ℕ, ◌+◌, ◌-◌, ◌*◌, ◌/◌, ◌%◌, Bool, true, false, ◌&&◌, String, Option, none, some, List, [], ◌∷◌,
  leb, ltb, get_or, ◌==◌, first_then, sort_by, if◌then◌else◌, ◌+s◌, hex_byte, decimal,
}
use glasgow_tool.Error.{Error, access, selection, Result, ok, err}

abbrev pub api_level : ℕ
api_level = 9

abbrev pub glasgow_vid : ℕ
glasgow_vid = 0x20b7

abbrev pub glasgow_pid : ℕ
glasgow_pid = 0x9db1

abbrev pub cypress_vid : ℕ
cypress_vid = 0x04b4

abbrev pub cypress_pid : ℕ
cypress_pid = 0x8613

-- nusb's own descriptor of a device on the bus
pub record NativeInfo : Type 0 where
  pub vendor_id : ℕ
  pub product_id : ℕ
  pub device_version : ℕ
  pub serial_number : Option String
  pub bus_id : String

pub record DeviceInfo : Type 0 where
  pub serial : Option String
  pub vendor_id : ℕ
  pub product_id : ℕ
  pub revision : String
  pub api_level : ℕ
  pub api_compatible : Bool
  pub path : String
  pub native : NativeInfo

pub record RecoveryCandidate : Type 0 where
  pub vendor_id : ℕ
  pub product_id : ℕ
  pub path : String

unfoldable pub attachment_path : NativeInfo → String
attachment_path info = info.bus_id

-- The letters A to Z.
abbrev letters : List String
letters =
    "A" ∷ "B" ∷ "C" ∷ "D" ∷ "E" ∷ "F" ∷ "G" ∷ "H" ∷ "I" ∷ "J" ∷ "K" ∷ "L" ∷ "M" ∷ "N" ∷ "O" ∷ "P"
    ∷ "Q" ∷ "R" ∷ "S" ∷ "T" ∷ "U" ∷ "V" ∷ "W" ∷ "X" ∷ "Y" ∷ "Z" ∷ []

-- A letter for the high four bits and a digit for the low four.
unfoldable pub decode_revision : ℕ → String
decode_revision value =
    let major = value / 16 in
    let minor = value % 16 in
    if leb 1 major && leb major 26 && leb minor 9
    then get_or letters (major - 1) "" +s decimal minor
    else "unknown-" +s hex_byte value

-- `serial.is_none_or(|serial| device.serial.as_deref() == Some(serial))`
unfoldable pub is_match : Option String → DeviceInfo → Bool
is_match none device = true
is_match (some serial) device = elim device.serial [
  | none ↦ false
  | some own ↦ Text.◌==◌ own serial
]

unfoldable pub matches : Option String → List DeviceInfo → List DeviceInfo
unfolding is_match
matches serial [] = []
matches serial (device ∷ devices) =
    let rest = matches serial devices in if is_match serial device then device ∷ rest else rest

-- The answer for the devices that match.
unfoldable pub only : List DeviceInfo → Result Error DeviceInfo
only [] = err (selection "no matching Glasgow was found")
only (device ∷ []) = ok device
only (_ ∷ _ ∷ _) = err (selection "multiple Glasgow devices match; specify --serial")

unfoldable pub select_device : List DeviceInfo → Option String → Result Error DeviceInfo
unfolding matches only
select_device devices serial = only (matches serial devices)

unfoldable pub device_info : NativeInfo → DeviceInfo
unfolding attachment_path
device_info native =
    let version = native.device_version in
    record {
      serial = native.serial_number;
      vendor_id = glasgow_vid;
      product_id = glasgow_pid;
      revision = decode_revision (version % 256);
      api_level = version / 256 % 256;
      api_compatible = version / 256 % 256 == api_level;
      path = attachment_path native;
      native = native;
    }

-- `filter` and `map`
unfoldable pub boards : List NativeInfo → List DeviceInfo
unfolding device_info
boards [] = []
boards (info ∷ infos) =
    let rest = boards infos in
    if (info.vendor_id == glasgow_vid) && (info.product_id == glasgow_pid)
    then device_info info ∷ rest
    else rest

-- A text that is not there comes before every text.
unfoldable pub serial_order : Option String → Option String → Ordering
serial_order none none = Ordering.eq
serial_order none (some b) = Ordering.lt
serial_order (some a) none = Ordering.gt
serial_order (some a) (some b) = compare a b

unfoldable pub board_order : DeviceInfo → DeviceInfo → Ordering
unfolding serial_order
board_order left right =
    first_then (serial_order left.serial right.serial) (compare left.path right.path)

unfoldable pub list_devices : Result String (List NativeInfo) → Result Error (List DeviceInfo)
unfolding boards board_order
list_devices (err error) = err (access ("cannot enumerate USB devices: " +s error))
list_devices (ok infos) = ok (sort_by board_order (boards infos))

unfoldable pub candidates : List NativeInfo → List RecoveryCandidate
unfolding attachment_path
candidates [] = []
candidates (info ∷ infos) =
    let rest = candidates infos in
    if (info.vendor_id == cypress_vid) && (info.product_id == cypress_pid)
    then record {
      vendor_id = info.vendor_id;
      product_id = info.product_id;
      path = attachment_path info;
    }
      ∷ rest
    else rest

unfoldable pub candidate_order : RecoveryCandidate → RecoveryCandidate → Ordering
candidate_order left right = compare left.path right.path

unfoldable pub list_recovery_candidates :
    Result String (List NativeInfo) → Result Error (List RecoveryCandidate)
unfolding candidates candidate_order
list_recovery_candidates (err error) = err (access ("cannot enumerate USB devices: " +s error))
list_recovery_candidates (ok infos) = ok (sort_by candidate_order (candidates infos))

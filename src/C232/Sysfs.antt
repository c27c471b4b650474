-- ===== src/C232/Sysfs.antt =====
-- What Linux knows about a serial port (src/uart/c232/vcp.rs): `read_trimmed`, `linux_usb_metadata`
-- and `stable_path`, over a file system that is a parameter. On other systems the code has stubs.
pub mod Nearest
pub mod Links
use Prim.Native.Char.{code}
use Prim.Native.String
use text.Mathlib.Text
use glasgow_tool.Prelude.{
  ℕ, ◌+◌, ◌*◌, ◌^◌, Bool, true, false, ◌&&◌, ◌||◌, String, Option, none, some, List, [], ◌∷◌, ◌==◌,
  leb, ltb, if◌then◌else◌,
}
use glasgow_tool.C232.Devices.{UsbMetadata, System}
use glasgow_tool.Glasgow.Resource.{hex_digit}

-- A resolved directory is the list of its names, the last one first: `pop` takes the first one away,
-- and fails on the root, which has none.
pub record Files : Type 0 where
  -- `Path::new(port).file_name()`
  pub file_name : String → Option String
  -- `fs::canonicalize("/sys/class/tty/<name>/device")`
  pub device_directory : String → Option (List String)
  -- `fs::read_to_string` of a file of a directory
  pub read_to_string : List String → String → Option String
  pub canonicalize : String → Option String
  -- `fs::read_dir("/dev/serial/by-id")`: the paths of its entries, which may fail one by one
  pub by_id : Option (List (Option String))

-- `char::is_whitespace`
abbrev pub is_whitespace : ℕ → Bool
is_whitespace c =
    leb 9 c && leb c 13
    || c == 0x20
    || c == 0x85
    || c == 0xa0
    || c == 0x1680
    || leb 0x2000 c && leb c 0x200a
    || c == 0x2028
    || c == 0x2029
    || c == 0x202f
    || c == 0x205f
    || c == 0x3000

abbrev pub is_nothing : String → Bool
is_nothing String.[] = true
is_nothing (String.◌∷◌ c s) = false

unfoldable pub trim_start : String → String
trim_start String.[] = String.[]
trim_start (String.◌∷◌ c s) =
    let rest = trim_start s in if is_whitespace (code c) then rest else String.◌∷◌ c s

unfoldable pub trim_end : String → String
trim_end String.[] = String.[]
trim_end (String.◌∷◌ c s) =
    let rest = trim_end s in
    if is_nothing rest && is_whitespace (code c) then String.[] else String.◌∷◌ c rest

unfoldable pub read_trimmed : Files → List String → String → Option String
unfolding trim_start trim_end
read_trimmed files directory name = elim (files.read_to_string directory name) [
  | none ↦ none
  | some value ↦
      let trimmed = trim_end (trim_start value) in if is_nothing trimmed then none else some trimmed
]

-- The digits from the first on, with the overflow check of a u16 at each.
unfoldable pub hex_value : ℕ → String → Option ℕ
unfolding hex_digit
hex_value value String.[] = some value
hex_value value (String.◌∷◌ c s) = elim (hex_digit (code c)) [
  | none ↦ none
  | some d ↦
      let more = hex_value (value * 16 + d) s in
      if ltb (value * 16 + d) (2 ^ 16) then more else none
]

unfoldable pub hex_digits : String → Option ℕ
unfolding hex_value
hex_digits s = if is_nothing s then none else hex_value 0 s

-- `u16::from_str_radix(value, 16)`: a plus sign may stand first.
unfoldable pub from_str_radix : String → Option ℕ
unfolding hex_digits
from_str_radix String.[] = none
from_str_radix (String.◌∷◌ c s) = if code c == 43 then hex_digits s else hex_digits (String.◌∷◌ c s)

unfoldable pub read_id : Files → List String → String → Option ℕ
unfolding read_trimmed from_str_radix
read_id files directory name = elim (read_trimmed files directory name) [
  | none ↦ none
  | some value ↦ from_str_radix value
]

abbrev pub is_known : Option ℕ → Bool
is_known none = false
is_known (some _) = true

-- `UsbMetadata::default()`
abbrev pub unknown : UsbMetadata
unknown = record { vid = none; pid = none; serial = none; product = none }

-- The body of the loop: a directory with the files of a USB device, or `none`.
unfoldable pub described : Files → List String → Option UsbMetadata
unfolding read_id read_trimmed
described files directory =
    let vid = read_id files directory "idVendor" in
    let pid = read_id files directory "idProduct" in
    if is_known vid || is_known pid
    then some (record {
      vid = vid;
      pid = pid;
      serial = read_trimmed files directory "serial";
      product = read_trimmed files directory "product";
    })
    else none

-- The loop, from a directory up to the root, which is looked at as well.
unfoldable pub search_up : Files → List String → UsbMetadata
unfolding described
search_up files [] = elim (described files []) [ none ↦ unknown | some usb ↦ usb ]
search_up files (name ∷ parent) =
    let above = search_up files parent in
    elim (described files (name ∷ parent)) [ none ↦ above | some usb ↦ usb ]

unfoldable pub linux_usb_metadata : Files → String → UsbMetadata
unfolding search_up
linux_usb_metadata files port = elim (files.file_name port) [
  | none ↦ unknown
  | some name ↦ elim (files.device_directory name) [
    | none ↦ unknown
    | some directory ↦ search_up files directory
  ]
]

-- An entry that can be resolved, to the same file as the port.
unfoldable pub is_link : Files → String → String → Bool
is_link files canonical_port path = elim (files.canonicalize path) [
  | none ↦ false
  | some target ↦ Text.◌==◌ target canonical_port
]

unfoldable pub links : Files → String → List (Option String) → List String
unfolding is_link
links files canonical_port [] = []
links files canonical_port (none ∷ entries) = links files canonical_port entries
links files canonical_port (some path ∷ entries) =
    let rest = links files canonical_port entries in
    if is_link files canonical_port path then path ∷ rest else rest

-- `min` of paths in one directory, whose order is that of their texts.
unfoldable pub least_from : String → List String → String
least_from best [] = best
least_from best (path ∷ paths) =
    let kept = least_from best paths in
    let better = least_from path paths in
    if Text.is_lt (String.compare path best) then better else kept

unfoldable pub least : List String → Option String
unfolding least_from
least [] = none
least (path ∷ paths) = some (least_from path paths)

unfoldable pub stable_path : Files → String → Option String
unfolding links least
stable_path files port = elim (files.canonicalize port) [
  | none ↦ none
  | some canonical_port ↦ elim files.by_id [
    | none ↦ none
    | some entries ↦ least (links files canonical_port entries)
  ]
]

-- What the selection of a cable asks of the system, on Linux.
abbrev pub linux : Files → System
unfolding linux_usb_metadata stable_path
linux files = record {
  usb_metadata = linux_usb_metadata files;
  stable_path = stable_path files;
  canonicalize = files.canonicalize;
}

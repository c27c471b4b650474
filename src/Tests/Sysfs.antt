-- ===== src/Tests/Sysfs.antt =====
-- The sysfs directory of a cable (src/uart/c232/vcp.rs): the files stand three directories above the
-- port's own.
use text.Mathlib.Text
use glasgow_tool.Prelude.{
  ◌≡◌, refl, String, Option, none, some, [], ◌∷◌, ◌==◌, length, if◌then◌else◌,
}
use glasgow_tool.C232.Sysfs.{
  Files, read_id, read_trimmed, trim_start, trim_end, hex_value, hex_digits, from_str_radix,
  described, search_up, linux_usb_metadata, is_link, links, least_from, least, stable_path,
}
use glasgow_tool.Glasgow.Resource.{hex_digit}

abbrev usb_file : String → Option String
usb_file name =
    if Text.◌==◌ name "idVendor"
    then some "0403\n"
    else if Text.◌==◌ name "idProduct"
    then some "6014\n"
    else if Text.◌==◌ name "serial"
    then some " FT1 2\n"
    else none

abbrev a_port : Files
a_port = record {
  file_name = λ port. some "ttyUSB1";
  device_directory = λ name. some ("tty" ∷ "ttyUSB1" ∷ "1-1:1.0" ∷ "1-1" ∷ "usb1" ∷ []);
  read_to_string = λ directory name. if length directory == 2 then usb_file name else none;
  canonicalize = λ path. some "/dev/ttyUSB1";
  by_id = some (none ∷ some "/dev/serial/by-id/b" ∷ some "/dev/serial/by-id/a" ∷ []);
}

metadata_found :
    linux_usb_metadata a_port "/dev/ttyUSB1"
    ≡ record { vid = some 0x0403; pid = some 0x6014; serial = some "FT1 2"; product = none }
unfolding linux_usb_metadata search_up described read_id read_trimmed trim_start trim_end
    from_str_radix hex_digits hex_value hex_digit
metadata_found = refl

path_found : stable_path a_port "/dev/ttyUSB1" ≡ some "/dev/serial/by-id/a"
unfolding stable_path links is_link least least_from
path_found = refl

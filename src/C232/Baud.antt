-- ===== src/C232/Baud.antt =====
-- `ftdi_high_speed_baud` of src/uart/c232/vcp.rs, and how src/uart/c232/usb.rs splits the encoded
-- divisor over the value and the index of the SIO_SET_BAUD request.
pub mod Encoding
pub mod Accuracy
use Prim.Native.Nat.{bit_and, bit_or}
use glasgow_tool.Prelude.{
  ℕ, ◌+◌, ◌*◌, ◌/◌, ◌%◌, ◌^◌, List, [], ◌∷◌, ltb, leb, if◌then◌else◌, get_or,
}
use glasgow_tool.Error.{Error, Result, ok, err}
use glasgow_tool.Baud.{in_range, clamp, error_of, out_of_range, intolerable}

pub record BaudResult : Type 0 where
  pub divisor_eighths : ℕ
  pub encoded_divisor : ℕ
  pub actual : ℕ

abbrev pub fraction_code : List ℕ
fraction_code = 0 ∷ 3 ∷ 2 ∷ 4 ∷ 1 ∷ 5 ∷ 6 ∷ 7 ∷ []

-- `(divisor >> 3) | (FRACTION_CODE[(divisor & 7) as usize] << 14)`
unfoldable pub encode : ℕ → ℕ
encode divisor = bit_or (divisor / 8) (get_or fraction_code (bit_and divisor 7) 0 * 2 ^ 14)

-- The rate times eight over the clock of 12 MHz, to the nearest.
unfoldable pub divisor_of : ℕ → ℕ
divisor_of requested = clamp 16 0x1_ffff ((96_000_000 + requested / 2) / requested)

-- The divisor in eighths, its code without the high-speed bit, and the realized rate.
unfoldable pub choose : ℕ → BaudResult
choose requested =
    if leb 12_000_000 requested
    then record { divisor_eighths = 8; encoded_divisor = 0; actual = 12_000_000 }
    else if leb 8_000_000 requested
    then record { divisor_eighths = 12; encoded_divisor = 1; actual = 8_000_000 }
    else if leb 6_000_000 requested
    then record { divisor_eighths = 16; encoded_divisor = 2; actual = 6_000_000 }
    else let divisor = divisor_of requested in
      record {
        divisor_eighths = divisor;
        encoded_divisor = encode divisor;
        actual = (96_000_000 + divisor / 2) / divisor;
      }

-- The high-speed bit, and the check of the tolerance.
unfoldable pub realize : ℕ → BaudResult → Result Error BaudResult
realize requested r =
    if ltb 200 (error_of r.actual requested)
    then err (intolerable requested r.actual)
    else ok (record r { encoded_divisor = bit_or r.encoded_divisor 0x2_0000 })

unfoldable pub ftdi_high_speed_baud : ℕ → Result Error BaudResult
ftdi_high_speed_baud requested =
    if in_range requested then realize requested (choose requested) else err out_of_range

-- In `configure_ftdi`: the bytes 0 and 1 of the encoded divisor, and byte 2 above the interface.
abbrev pub interface_index : ℕ
interface_index = 1

unfoldable pub baud_value : ℕ → ℕ
baud_value encoded = encoded % 256 + encoded / 256 % 256 * 256

unfoldable pub baud_index : ℕ → ℕ
baud_index encoded = bit_or (encoded / 65536 % 256 * 256) interface_index

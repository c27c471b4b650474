-- ===== src/Glasgow/Baud.antt =====
-- `baud_divisor` of src/uart/glasgow/transport.rs.
pub mod Accuracy
pub mod Total
use glasgow_tool.Prelude.{ℕ, ◌+◌, ◌-◌, ◌*◌, ◌/◌, ◌^◌, ltb, if◌then◌else◌}
use glasgow_tool.Error.{Error, Result, ok, err}
use glasgow_tool.Baud.{in_range, clamp, error_of, out_of_range, intolerable}

-- The clock divided by the rate, to the nearest, in the 20 bits of the register.
unfoldable pub divisor_of : ℕ → ℕ
divisor_of requested = clamp 1 (2 ^ 20 - 1) ((48_000_000 + requested / 2) / requested)

-- The result for a divisor, after the check of the tolerance.
unfoldable pub realize : ℕ → ℕ → Result Error (ℕ × ℕ)
realize requested divisor =
    let actual = 48_000_000 / divisor in
    if ltb 200 (error_of actual requested)
    then err (intolerable requested actual)
    else ok (divisor, actual)

unfoldable pub baud_divisor : ℕ → Result Error (ℕ × ℕ)
baud_divisor requested =
    if in_range requested then realize requested (divisor_of requested) else err out_of_range

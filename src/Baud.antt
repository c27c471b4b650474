-- ===== src/Baud.antt =====
-- The line-rate checks that both backends share (src/uart/glasgow/transport.rs `baud_divisor`,
-- src/uart/c232/vcp.rs `ftdi_high_speed_baud`): the range, the clamp, and the 2% tolerance.
pub mod Division
use glasgow_tool.Prelude.{
  ℕ, ◌+◌, ◌-◌, ◌*◌, ◌/◌, ◌≤◌, ◌<◌, Bool, ◌&&◌, String, ltb, leb, if◌then◌else◌, max, min, ◌+s◌,
  decimal,
}
use glasgow_tool.Error.{Error, selection, validation}

-- `(9_600..=12_000_000).contains(&requested)`
abbrev pub in_range : ℕ → Bool
in_range requested = leb 9600 requested && leb requested 12_000_000

-- `clamp(low, high)`
abbrev pub clamp : ℕ → ℕ → ℕ → ℕ
clamp low high x = if ltb x low then low else if ltb high x then high else x

-- `a.abs_diff(b)`
abbrev pub abs_diff : ℕ → ℕ → ℕ
abs_diff a b = if ltb a b then b - a else a - b

-- The error in units of 1 / 10 000 of the requested rate.
abbrev pub error_of : ℕ → ℕ → ℕ
error_of actual requested = abs_diff actual requested * 10_000 / requested

abbrev pub out_of_range : Error
out_of_range = selection "baud rate must be between 9600 and 12000000"

abbrev pub intolerable : ℕ → ℕ → Error
intolerable requested actual = validation (
    "requested baud "
    +s decimal requested
    +s " is represented as "
    +s decimal actual
    +s ", exceeding 2% error")

-- ===== src/Cli/Duration.antt =====
-- The value parser of the durations (src/bin/common/mod.rs), over the bytes of a text.
pub mod Whole
pub mod Bounds
use glasgow_tool.Prelude.{
  ℕ, zero, suc, ◌+◌, ◌-◌, ◌*◌, ◌/◌, ◌%◌, ◌^◌, Bool, true, false, ◌&&◌, ◌||◌, not, Option, none,
  some, List, [], ◌∷◌, ◌==◌, ltb, leb, if◌then◌else◌, length, take, drop, is_empty, same_bytes,
}
use glasgow_tool.Error.{Result, ok, err}
use glasgow_tool.Cli.Parsing.{digit}
use glasgow_tool.Cli.Float.{
  F64, nan, infinite, finite, of_ratio, rounded_units, times, nearest_even, unit_bits,
}

-- `str::strip_suffix`
unfoldable pub strip_suffix : List ℕ → List ℕ → Option (List ℕ)
strip_suffix suffix text =
    let n = length text - length suffix in
    if same_bytes (drop n text) suffix then some (take n text) else none

-- A run of digits: its value after `value`, how many they are, and what follows.
unfoldable pub digits : ℕ → ℕ → List ℕ → ℕ × ℕ × List ℕ
unfolding digit
digits value count [] = (value, count, [])
digits value count (b ∷ text) = elim (digit b) [
  | none ↦ (value, count, b ∷ text)
  | some d ↦ digits (value * 10 + d) (count + 1) text
]

-- A sign may stand first: whether it is a minus.
unfoldable pub signed : List ℕ → Bool × List ℕ
signed [] = (false, [])
signed (b ∷ text) =
    if b == 43 then (false, text) else if b == 45 then (true, text) else (false, b ∷ text)

-- The exponent, if `e` follows: whether it is negative, and its size.
unfoldable pub exponent : List ℕ → Option (Bool × ℕ)
unfolding signed digits
exponent [] = some (false, 0)
exponent (b ∷ text) =
    let (negative, rest) = signed text in
    let (value, count, after) = digits 0 0 rest in
    if ((b == 101) || (b == 69)) && not (count == 0) && is_empty after
    then some (negative, value)
    else none

-- `value * 10 ^ (exponent - places)`
unfoldable pub scaled : Bool → ℕ → ℕ → Bool × ℕ → F64
scaled negative value places (true, e) = of_ratio negative value (10 ^ (places + e))
scaled negative value places (false, e) = of_ratio negative (value * 10 ^ e) (10 ^ places)

unfoldable pub with_exponent : Bool → ℕ → ℕ → List ℕ → Option F64
unfolding exponent scaled
with_exponent negative value places text = elim (exponent text) [
  | none ↦ none
  | some e ↦ some (scaled negative value places e)
]

-- The digits after a point, of which there may be none if there were some before it.
unfoldable pub fraction : Bool → ℕ → ℕ → List ℕ → Option F64
unfolding digits with_exponent
fraction negative value whole text =
    let (more, places, rest) = digits value 0 text in
    if whole + places == 0 then none else with_exponent negative more places rest

unfoldable pub after_whole : Bool → ℕ → ℕ → List ℕ → Option F64
unfolding fraction with_exponent
after_whole negative value whole [] = if whole == 0 then none else with_exponent negative value 0 []
after_whole negative value whole (b ∷ text) =
    if b == 46
    then fraction negative value whole text
    else if whole == 0
    then none
    else with_exponent negative value 0 (b ∷ text)

unfoldable pub decimal_number : Bool → List ℕ → Option F64
unfolding digits after_whole
decimal_number negative text =
    let (value, whole, rest) = digits 0 0 text in after_whole negative value whole rest

-- An upper-case letter made lower-case
abbrev pub lower : ℕ → ℕ
lower b = if leb 65 b && leb b 90 then b + 32 else b

abbrev pub same_word : List ℕ → List ℕ → Bool
same_word [] [] = true
same_word (a ∷ xs) (b ∷ ys) = (lower a == b) && same_word xs ys
same_word _ _ = false

-- `str::parse::<f64>`
unfoldable pub parse_f64 : List ℕ → Option F64
unfolding signed decimal_number
parse_f64 text =
    let (negative, rest) = signed text in
    if same_word rest (105 ∷ 110 ∷ 102 ∷ [])
      || same_word rest (105 ∷ 110 ∷ 102 ∷ 105 ∷ 110 ∷ 105 ∷ 116 ∷ 121 ∷ [])
    then some (infinite negative)
    else if same_word rest (110 ∷ 97 ∷ 110 ∷ [])
    then some nan
    else decimal_number negative rest

-- Why a text is no duration
pub data NoDuration : Type 0 where
  no_unit invalid_duration not_positive : NoDuration

-- The number before the unit, and the units of 2 ^ -1074 in the unit's f64: `0.001` or `1.0`.
unfoldable pub split_unit : List ℕ → Option (List ℕ × ℕ)
unfolding strip_suffix rounded_units
split_unit value = elim (strip_suffix (109 ∷ 115 ∷ []) value) [
  | some number ↦ some (number, rounded_units (2 ^ unit_bits) 1000)
  | none ↦ elim (strip_suffix (115 ∷ []) value) [
    | some number ↦ some (number, 2 ^ unit_bits)
    | none ↦ none
  ]
]

-- `Duration::from_secs_f64` of a number that is not negative, in nanoseconds: `none` is its panic
-- from 2 ^ 64 seconds on.
unfoldable pub from_secs_f64 : ℕ → Option ℕ
unfolding nearest_even
from_secs_f64 units =
    if leb (2 ^ (64 + unit_bits)) units
    then none
    else some (nearest_even (units * 1_000_000_000) (2 ^ unit_bits))

-- `amount` is in range if it is finite and greater than zero.
unfoldable pub duration_of : F64 → ℕ → Option (Result NoDuration ℕ)
unfolding from_secs_f64 times
duration_of (finite false (suc units)) scale = elim (from_secs_f64 (times (suc units) scale)) [
  | none ↦ none
  | some nanoseconds ↦ some (ok nanoseconds)
]
duration_of _ scale = some (err not_positive)

unfoldable pub parse_duration : List ℕ → Option (Result NoDuration ℕ)
unfolding split_unit parse_f64 duration_of
parse_duration value = elim (split_unit value) [
  | none ↦ some (err no_unit)
  | some (number, scale) ↦ elim (parse_f64 number) [
    | none ↦ some (err invalid_duration)
    | some amount ↦ duration_of amount scale
  ]
]

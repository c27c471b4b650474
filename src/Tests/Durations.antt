-- ===== src/Tests/Durations.antt =====
-- Durations as the commands read them (src/bin/common/mod.rs).
use glasgow_tool.Prelude.{◌≡◌, refl, some, none, [], ◌∷◌, arith}
use glasgow_tool.Error.{ok, err}
use glasgow_tool.Cli.Parsing.{digit}
use glasgow_tool.Cli.Float.{
  nearest_even, bit_length, spacing, rounded_units, of_units, of_ratio, times,
}
use glasgow_tool.Cli.Duration.Whole.{parse_duration_of_seconds}
use glasgow_tool.Cli.Duration.{
  strip_suffix, digits, signed, exponent, scaled, with_exponent, fraction, after_whole,
  decimal_number, parse_f64, split_unit, from_secs_f64, duration_of, parse_duration, not_positive,
  no_unit, invalid_duration,
}

-- 2s
two_seconds : parse_duration (50 ∷ 115 ∷ []) ≡ some (ok 2_000_000_000)
unfolding parse_duration split_unit strip_suffix parse_f64 decimal_number digits digit signed
    after_whole fraction with_exponent exponent scaled of_ratio of_units rounded_units spacing
    bit_length nearest_even duration_of from_secs_f64 times
two_seconds = refl

-- 1500ms
fifteen_hundred_ms : parse_duration (49 ∷ 53 ∷ 48 ∷ 48 ∷ 109 ∷ 115 ∷ []) ≡ some (ok 1_500_000_000)
unfolding parse_duration split_unit strip_suffix parse_f64 decimal_number digits digit signed
    after_whole fraction with_exponent exponent scaled of_ratio of_units rounded_units spacing
    bit_length nearest_even duration_of from_secs_f64 times
fifteen_hundred_ms = refl

-- .25s
quarter : parse_duration (46 ∷ 50 ∷ 53 ∷ 115 ∷ []) ≡ some (ok 250_000_000)
unfolding parse_duration split_unit strip_suffix parse_f64 decimal_number digits digit signed
    after_whole fraction with_exponent exponent scaled of_ratio of_units rounded_units spacing
    bit_length nearest_even duration_of from_secs_f64 times
quarter = refl

-- 1e-10s
too_small : parse_duration (49 ∷ 101 ∷ 45 ∷ 49 ∷ 48 ∷ 115 ∷ []) ≡ some (ok 0)
unfolding parse_duration split_unit strip_suffix parse_f64 decimal_number digits digit signed
    after_whole fraction with_exponent exponent scaled of_ratio of_units rounded_units spacing
    bit_length nearest_even duration_of from_secs_f64 times
too_small = refl

-- 18446744073709551616s
too_long :
    parse_duration (
      49 ∷ 56 ∷ 52 ∷ 52 ∷ 54 ∷ 55 ∷ 52 ∷ 52 ∷ 48 ∷ 55 ∷ 51 ∷ 55 ∷ 48 ∷ 57 ∷ 53 ∷ 53 ∷ 49 ∷ 54 ∷ 49
      ∷ 54 ∷ 115 ∷ [])
    ≡ none
unfolding parse_duration split_unit strip_suffix parse_f64 decimal_number digits digit signed
    after_whole fraction with_exponent exponent scaled of_ratio of_units rounded_units spacing
    bit_length nearest_even duration_of from_secs_f64 times
too_long = refl

-- 1e400s
infinite_amount : parse_duration (49 ∷ 101 ∷ 52 ∷ 48 ∷ 48 ∷ 115 ∷ []) ≡ some (err not_positive)
unfolding parse_duration split_unit strip_suffix parse_f64 decimal_number digits digit signed
    after_whole fraction with_exponent exponent scaled of_ratio of_units rounded_units spacing
    bit_length nearest_even duration_of from_secs_f64 times
infinite_amount = refl

-- -1s
negative : parse_duration (45 ∷ 49 ∷ 115 ∷ []) ≡ some (err not_positive)
unfolding parse_duration split_unit strip_suffix parse_f64 decimal_number digits digit signed
    after_whole fraction with_exponent exponent scaled of_ratio of_units rounded_units spacing
    bit_length nearest_even duration_of from_secs_f64 times
negative = refl

-- 0s
zero_amount : parse_duration (48 ∷ 115 ∷ []) ≡ some (err not_positive)
unfolding parse_duration split_unit strip_suffix parse_f64 decimal_number digits digit signed
    after_whole fraction with_exponent exponent scaled of_ratio of_units rounded_units spacing
    bit_length nearest_even duration_of from_secs_f64 times
zero_amount = refl

-- nans
no_number : parse_duration (110 ∷ 97 ∷ 110 ∷ 115 ∷ []) ≡ some (err not_positive)
unfolding parse_duration split_unit strip_suffix parse_f64 decimal_number digits digit signed
    after_whole fraction with_exponent exponent scaled of_ratio of_units rounded_units spacing
    bit_length nearest_even duration_of from_secs_f64 times
no_number = refl

-- 5m
minutes : parse_duration (53 ∷ 109 ∷ []) ≡ some (err no_unit)
unfolding parse_duration split_unit strip_suffix parse_f64 decimal_number digits digit signed
    after_whole fraction with_exponent exponent scaled of_ratio of_units rounded_units spacing
    bit_length nearest_even duration_of from_secs_f64 times
minutes = refl

-- .s
no_digits : parse_duration (46 ∷ 115 ∷ []) ≡ some (err invalid_duration)
unfolding parse_duration split_unit strip_suffix parse_f64 decimal_number digits digit signed
    after_whole fraction with_exponent exponent scaled of_ratio of_units rounded_units spacing
    bit_length nearest_even duration_of from_secs_f64 times
no_digits = refl

-- 3.14159ms
pi_ms : parse_duration (51 ∷ 46 ∷ 49 ∷ 52 ∷ 49 ∷ 53 ∷ 57 ∷ 109 ∷ 115 ∷ []) ≡ some (ok 3_141_590)
unfolding parse_duration split_unit strip_suffix parse_f64 decimal_number digits digit signed
    after_whole fraction with_exponent exponent scaled of_ratio of_units rounded_units spacing
    bit_length nearest_even duration_of from_secs_f64 times
pi_ms = refl

-- 90 seconds
parse_duration_of_seconds_example : parse_duration (57 ∷ 48 ∷ 115 ∷ []) ≡ some (ok 90_000_000_000)
parse_duration_of_seconds_example =
    parse_duration_of_seconds 9 (0 ∷ []) (omega arith, (omega arith, tt)) (omega arith)
      (omega arith)

-- ===== src/Cli/Duration/Whole.antt =====
-- A whole number of seconds, as a duration (src/bin/common/mod.rs).
use glasgow_tool.Prelude.{
  ℕ, zero, suc, ◌+◌, ◌-◌, ◌*◌, ◌^◌, ◌<◌, ◌≡◌, refl, sym, ap, ◌∙◌, false, some, List, [], ◌∷◌, ◌++◌,
  length, take, drop, same_bytes, arith, length-append, take-append, drop-append,
}
use glasgow_tool.Error.{ok}
use glasgow_tool.Cli.Parsing.{digit}
use glasgow_tool.Cli.Float.{
  finite, of_ratio, of_units, rounded_units, nearest_even, unit_bits, times,
}
use glasgow_tool.Cli.Float.Exact.{rounded_units-exact, nearest_even-mul}
use glasgow_tool.Cli.Duration.{
  strip_suffix, digits, signed, exponent, scaled, with_exponent, after_whole, decimal_number,
  parse_f64, split_unit, from_secs_f64, duration_of, parse_duration,
}

abbrev pub AreDigits : List ℕ → Type 0
AreDigits [] = Unit
AreDigits (d ∷ ds) = (d < 10) × AreDigits ds

-- The digits as bytes of text, and the number that they write after `value`.
abbrev pub digit_text : List ℕ → List ℕ
digit_text [] = []
digit_text (d ∷ ds) = (48 + d) ∷ digit_text ds

abbrev pub number_of : ℕ → List ℕ → ℕ
number_of value [] = value
number_of value (d ∷ ds) = number_of (value * 10 + d) ds

digit_of : (d : ℕ) → d < 10 → digit (48 + d) ≡ some d
unfolding digit
digit_of d h = ground arith

digits_step :
    (d value count : ℕ) (text : List ℕ)
    → d < 10
    → digits value count ((48 + d) ∷ text) ≡ digits (value * 10 + d) (count + 1) text
unfolding digits
digits_step d value count text small = ground (arith, digit_of d small)

digits_of :
    (ds : List ℕ) (value count : ℕ)
    → AreDigits ds
    → digits value count (digit_text ds) ≡ (number_of value ds, count + length ds, [])
unfolding digits
digits_of [] value count h =
    let e : count + 0 ≡ count = omega arith in ap (λ k. (value, k, [])) (sym e)
digits_of (d ∷ ds) value count (small, h) =
    let e : count + 1 + length ds ≡ count + length (d ∷ ds) = omega arith in
    digits_step d value count (digit_text ds) small
    ∙ digits_of ds (value * 10 + d) (count + 1) h
    ∙ ap (λ k. (number_of value (d ∷ ds), k, [])) e

abbrev one_second : ℕ
one_second = 2 ^ unit_bits

kept : (n : ℕ) → n < 2 ^ 53 → rounded_units (n * 1 * one_second) 1 ≡ n * one_second
kept n small =
    let e : n * 1 * one_second ≡ n * one_second * 1 = grind arith in
    ap (λ k. rounded_units k 1) e ∙ rounded_units-exact n unit_bits 1 small (omega arith)

whole_f64 :
    (n : ℕ) → n < 2 ^ 53 → of_ratio false (n * 10 ^ 0) (10 ^ 0) ≡ finite false (n * one_second)
unfolding of_ratio of_units
whole_f64 n small = ground (arith, kept n small)

parse_whole :
    (d : ℕ) (ds : List ℕ)
    → AreDigits (d ∷ ds)
    → number_of 0 (d ∷ ds) < 2 ^ 53
    → parse_f64 (digit_text (d ∷ ds)) ≡ some (finite false (number_of 0 (d ∷ ds) * one_second))
unfolding parse_f64 signed decimal_number after_whole with_exponent exponent scaled
parse_whole d ds h small =
    ground (arith, digits_of (d ∷ ds) 0 0 h, whole_f64 (number_of 0 (d ∷ ds)) small, h.0)

duration_some :
    (units scale nanoseconds : ℕ)
    → 0 < units
    → from_secs_f64 (times units scale) ≡ some nanoseconds
    → duration_of (finite false units) scale ≡ some (ok nanoseconds)
unfolding duration_of
duration_some zero scale nanoseconds positive e = absurd (omega arith)
duration_some (suc units) scale nanoseconds positive e = ground (arith, e)

whole_seconds : (n : ℕ) → n < 2 ^ 53 → from_secs_f64 (n * one_second) ≡ some (n * 1_000_000_000)
unfolding from_secs_f64
whole_seconds n small =
    let e : n * one_second * 1_000_000_000 ≡ n * 1_000_000_000 * one_second = omega arith in
    let f =
      ap (λ k. nearest_even k one_second) e
      ∙ nearest_even-mul (n * 1_000_000_000) one_second (omega arith) in
    ground (arith, f)

whole_duration :
    (n : ℕ)
    → 0 < n
    → n < 2 ^ 53
    → duration_of (finite false (n * one_second)) one_second ≡ some (ok (n * 1_000_000_000))
unfolding times
whole_duration n positive small =
    let same : times (n * one_second) one_second ≡ n * one_second =
      rounded_units-exact n unit_bits one_second small (omega arith) in
    duration_some (n * one_second) one_second (n * 1_000_000_000) (omega arith)
      (ap from_secs_f64 same ∙ whole_seconds n small)

-- The last two bytes are a digit and the unit: they are not `ms`.
no_ms :
    (d : ℕ) (ds : List ℕ)
    → AreDigits (d ∷ ds)
    → same_bytes
        (drop (length (digit_text ds ++ 115 ∷ []) - 1) ((48 + d) ∷ (digit_text ds ++ 115 ∷ [])))
        (109 ∷ 115 ∷ [])
      ≡ false
no_ms d [] (small, h) = ground arith
no_ms d (e ∷ es) (small, h) =
    let n = length (digit_text es ++ 115 ∷ []) in
    let more : length (digit_text (e ∷ es) ++ 115 ∷ []) - 1 ≡ suc (n - 1) =
      omega (arith, length-append (digit_text es) (115 ∷ [])) in
    ap (λ k. same_bytes (drop k (digit_text (d ∷ e ∷ es) ++ 115 ∷ [])) (109 ∷ 115 ∷ [])) more
    ∙ no_ms e es h

split_seconds :
    (d : ℕ) (ds : List ℕ)
    → AreDigits (d ∷ ds)
    → split_unit (digit_text (d ∷ ds) ++ 115 ∷ []) ≡ some (digit_text (d ∷ ds), one_second)
unfolding split_unit strip_suffix
split_seconds d ds h =
    let text = digit_text (d ∷ ds) in
    let size = length-append text (115 ∷ []) in
    let one_back : length (text ++ 115 ∷ []) - 1 ≡ length text = omega (arith, size) in
    let two_back : length (text ++ 115 ∷ []) - 2 ≡ length (digit_text ds ++ 115 ∷ []) - 1 =
      omega arith in
    let last =
      ap (λ k. drop k (text ++ 115 ∷ [])) one_back
      ∙ drop-append (length text) text (115 ∷ []) refl in
    let number =
      ap (λ k. take k (text ++ 115 ∷ [])) one_back
      ∙ take-append (length text) text (115 ∷ []) refl in
    let not_ms =
      ap (λ k. same_bytes (drop k (text ++ 115 ∷ [])) (109 ∷ 115 ∷ [])) two_back ∙ no_ms d ds h in
    ground (arith, not_ms, last, number)

-- A whole number of seconds, from 1 to 2 ^ 53 - 1, is read exactly.
pub parse_duration_of_seconds :
    (d : ℕ) (ds : List ℕ)
    → AreDigits (d ∷ ds)
    → 0 < number_of 0 (d ∷ ds)
    → number_of 0 (d ∷ ds) < 2 ^ 53
    → parse_duration (digit_text (d ∷ ds) ++ 115 ∷ [])
      ≡ some (ok (number_of 0 (d ∷ ds) * 1_000_000_000))
unfolding parse_duration
parse_duration_of_seconds d ds h positive small = ground (
  arith,
  split_seconds d ds h,
  parse_whole d ds h small,
  whole_duration (number_of 0 (d ∷ ds)) positive small,
)

-- ===== src/Cli/Parsing/Accepted.antt =====
-- The rates that the command line accepts (src/bin/common/mod.rs).
use glasgow_tool.Prelude.{
  ℕ, ◌+◌, ◌*◌, ◌^◌, ◌≤◌, ◌<◌, ◌≡◌, refl, inl, inr, some, List, [], ◌∷◌, arith, Option-cases,
}
use glasgow_tool.Error.{ok}
use glasgow_tool.Cli.Parsing.{digit, parse_digits, unsigned, parse_u32, parse_baud}

-- The decimal value of a text of digits, over the value of what stands before it.
abbrev pub decimal_value : ℕ → List ℕ → ℕ
decimal_value value [] = value
decimal_value value (d ∷ ds) = decimal_value (value * 10 + d) ds

-- These are digits.
abbrev pub AllDigits : List ℕ → Type 0
AllDigits [] = Unit
AllDigits (d ∷ ds) = (d < 10) × AllDigits ds

abbrev pub digit_texts : List ℕ → List ℕ
digit_texts [] = []
digit_texts (d ∷ ds) = (d + 48) ∷ digit_texts ds

value_grows : (value : ℕ) (ds : List ℕ) → value ≤ decimal_value value ds
value_grows value [] = omega arith
value_grows value (d ∷ ds) = omega (arith, value_grows (value * 10 + d) ds)

parse_digits_of_text :
    (value : ℕ) (ds : List ℕ)
    → AllDigits ds
    → decimal_value value ds < 2 ^ 32
    → parse_digits value (digit_texts ds) ≡ some (decimal_value value ds)
unfolding parse_digits digit
parse_digits_of_text value [] h small = refl
parse_digits_of_text value (d ∷ ds) h small =
    let rest = parse_digits_of_text (value * 10 + d) ds h.1 small in
    ground (arith, rest, value_grows (value * 10 + d) ds, h.0)

-- The decimal text of a rate in the supported range is parsed to that rate.
pub parse_baud_of_text :
    (d : ℕ) (ds : List ℕ)
    → AllDigits (d ∷ ds)
    → 9600 ≤ decimal_value 0 (d ∷ ds)
    → decimal_value 0 (d ∷ ds) ≤ 12_000_000
    → parse_baud (digit_texts (d ∷ ds)) ≡ ok (decimal_value 0 (d ∷ ds))
unfolding parse_baud parse_u32 unsigned
parse_baud_of_text d ds h low high =
    let parsed = parse_digits_of_text 0 (d ∷ ds) h (omega (arith, high)) in
    ground (arith, parsed, h.0)

-- A rate that the command line accepts is one that both backends have in their range.
pub parse_baud_in_range :
    (value : List ℕ) (baud : ℕ) → parse_baud value ≡ ok baud → (9600 ≤ baud) × (baud ≤ 12_000_000)
unfolding parse_baud
parse_baud_in_range value baud e = elim (Option-cases (parse_u32 value)) [
  | inl n ↦ absurd (ground (arith, e, n))
  | inr (b, n) ↦ ground (arith, e, n)
]

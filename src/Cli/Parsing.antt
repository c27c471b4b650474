-- ===== src/Cli/Parsing.antt =====
-- The value parser of the rate (src/bin/common/mod.rs).
pub mod Accepted
use glasgow_tool.Prelude.{
  ℕ, ◌+◌, ◌-◌, ◌*◌, ◌^◌, Bool, true, false, ◌&&◌, Option, none, some, String, List, [], ◌∷◌, ◌==◌,
  leb, ltb, if◌then◌else◌,
}
use glasgow_tool.Error.{Result, ok, err}

-- `char::to_digit(10)` of a byte of text
unfoldable pub digit : ℕ → Option ℕ
digit b = if leb 48 b && leb b 57 then some (b - 48) else none

-- The digits from the first on, with the overflow check of a u32 at each.
unfoldable pub parse_digits : ℕ → List ℕ → Option ℕ
unfolding digit
parse_digits value [] = some value
parse_digits value (b ∷ text) = elim (digit b) [
  | none ↦ none
  | some d ↦
      let more = parse_digits (value * 10 + d) text in
      if ltb (value * 10 + d) (2 ^ 32) then more else none
]

unfoldable pub unsigned : List ℕ → Option ℕ
unfolding parse_digits
unsigned [] = none
unsigned (b ∷ text) = parse_digits 0 (b ∷ text)

-- `str::parse::<u32>` of the bytes of a text: a plus sign may stand first.
unfoldable pub parse_u32 : List ℕ → Option ℕ
unfolding unsigned
parse_u32 [] = none
parse_u32 (b ∷ text) = if b == 43 then unsigned text else unsigned (b ∷ text)

-- Why a text is no rate
pub data NoBaud : Type 0 where
  invalid_baud_rate out_of_range : NoBaud

unfoldable pub parse_baud : List ℕ → Result NoBaud ℕ
parse_baud value = elim (parse_u32 value) [
  | none ↦ err invalid_baud_rate
  | some baud ↦ if leb 9600 baud && leb baud 12_000_000 then ok baud else err out_of_range
]

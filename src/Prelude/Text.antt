-- ===== src/Prelude/Text.antt =====
-- Message texts: what `format!` builds, with numbers in decimal and bytes in hexadecimal.
use Prim.Native.Nat.{ℕ, zero, suc, ◌/◌, ◌%◌}
use Prim.Native.String
use Prim.Native.String.{String}
use mathlib.Core.List.{List, [], ◌∷◌}
use glasgow_tool.Prelude.Lists.{get_or}
use glasgow_tool.Prelude.Tests.{ltb, if◌then◌else◌}

infixr 65 ◌+s◌
abbrev pub ◌+s◌ : String → String → String
a +s b = String.◌++◌ a b

digit_text : ℕ → String
digit_text d =
    get_or
      ("0" ∷ "1" ∷ "2" ∷ "3" ∷ "4" ∷ "5" ∷ "6" ∷ "7" ∷ "8" ∷ "9" ∷ "a" ∷ "b" ∷ "c" ∷ "d" ∷ "e" ∷ "f"
        ∷ [])
      d ""

-- the digits of `n`, with fuel
decimal_from : ℕ → ℕ → String → String
decimal_from zero n acc = acc
decimal_from (suc fuel) n acc =
    let rest = decimal_from fuel (n / 10) (digit_text (n % 10) +s acc) in
    if ltb n 10 then digit_text n +s acc else rest

-- `{n}`: a number below 10 ^ 40 has at most 40 digits
unfoldable pub decimal : ℕ → String
unfolding decimal_from digit_text
decimal n = decimal_from 40 n ""

-- `{b:02x}` of a byte
unfoldable pub hex_byte : ℕ → String
unfolding digit_text
hex_byte b = digit_text (b / 16) +s digit_text (b % 16)

hex_items : List ℕ → String
unfolding hex_byte
hex_items [] = ""
hex_items (b ∷ []) = hex_byte b
hex_items (b ∷ c ∷ bs) = hex_byte b +s ", " +s hex_items (c ∷ bs)

-- `{bytes:02x?}`
unfoldable pub hex_list : List ℕ → String
unfolding hex_items
hex_list bs = "[" +s hex_items bs +s "]"

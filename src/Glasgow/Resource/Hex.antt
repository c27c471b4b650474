-- ===== src/Glasgow/Resource/Hex.antt =====
-- Texts of hexadecimal digits (src/uart/glasgow/management.rs).
use glasgow_tool.Prelude.{
  ℕ, ◌+◌, ◌/◌, ◌%◌, ◌<◌, ◌≡◌, refl, ap, Bool, true, false, Option, none, some, List, [], ◌∷◌,
  length, ◌==◌, ltb, if◌then◌else◌, arith, all_below, all_below_at, ==_iff,
}
use glasgow_tool.Error.{ok}
use glasgow_tool.Glasgow.Resource.{hex_digit, hex_pair, hex_pairs, decode_hex}

-- `{byte:02x}`, as the bytes of the text
abbrev pub digit_char : ℕ → ℕ
digit_char d = if ltb d 10 then 48 + d else 87 + d

abbrev pub hex_text : List ℕ → List ℕ
hex_text [] = []
hex_text (b ∷ bs) = digit_char (b / 16) ∷ digit_char (b % 16) ∷ hex_text bs

abbrev pub AreBytes : List ℕ → Type 0
AreBytes [] = Unit
AreBytes (b ∷ bs) = (b < 256) × AreBytes bs

gives : Option ℕ → ℕ → Bool
gives none b = false
gives (some a) b = a == b

gives-some : (o : Option ℕ) (b : ℕ) → gives o b ≡ true → o ≡ some b
unfolding gives
gives-some none b h = cc
gives-some (some a) b h = ap some ((==_iff a b).0 h)

pair_table :
    all_below 256 (λ b. gives (hex_pair (digit_char (b / 16)) (digit_char (b % 16))) b) ≡ true
unfolding all_below gives hex_pair hex_digit
pair_table = refl

hex_pairs_step :
    (a b byte : ℕ) (rest bytes : List ℕ)
    → hex_pair a b ≡ some byte
    → hex_pairs rest ≡ ok bytes
    → hex_pairs (a ∷ b ∷ rest) ≡ ok (byte ∷ bytes)
unfolding hex_pairs
hex_pairs_step a b byte rest bytes p q = ground (arith, p, q)

pairs_of_text : (bytes : List ℕ) → AreBytes bytes → hex_pairs (hex_text bytes) ≡ ok bytes
unfolding hex_pairs
pairs_of_text [] h = refl
pairs_of_text (b ∷ bs) (small, h) =
    hex_pairs_step (digit_char (b / 16)) (digit_char (b % 16)) b (hex_text bs) bs
      (gives-some _ b (all_below_at 256 _ b pair_table small)) (pairs_of_text bs h)

even_text : (bytes : List ℕ) → length (hex_text bytes) % 2 ≡ 0
even_text [] = refl
even_text (b ∷ bs) = omega (arith, even_text bs)

-- The two-digit texts of bytes are decoded to these bytes.
decode_hex_of_text : (bytes : List ℕ) → AreBytes bytes → decode_hex (hex_text bytes) ≡ ok bytes
unfolding decode_hex
decode_hex_of_text bytes h = rw (even_text bytes) (pairs_of_text bytes h)

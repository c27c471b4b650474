-- ===== src/C232/Baud/Encoding.antt =====
-- What the chip makes of an encoded divisor (src/uart/c232/vcp.rs, src/uart/c232/usb.rs).
use Prim.Native.Nat.{bit_or}
use glasgow_tool.Prelude.{
  ℕ, ◌+◌, ◌*◌, ◌/◌, ◌%◌, ◌^◌, ◌≤◌, ◌≡◌, refl, Bool, true, false, le→ltb_not, ◌&&◌, ◌||◌, List, [],
  ◌∷◌, arith, ltb, ◌==◌, if◌then◌else◌, get_or, all_below, all_below_at, ==_iff,
}
use glasgow_tool.C232.Baud.{encode, baud_value, baud_index}

abbrev eighths : List ℕ
eighths = 0 ∷ 4 ∷ 2 ∷ 1 ∷ 3 ∷ 5 ∷ 6 ∷ 7 ∷ []

-- The chip's reading of the 17 divisor bits: 14 bits of units, a code for the eighths, and the two
-- values 0 and 1 that stand for 1 and 1.5.
abbrev pub divisor_read : ℕ → ℕ
divisor_read code =
    if code == 0
    then 8
    else if code == 1
    then 12
    else code % 2 ^ 14 * 8 + get_or eighths (code / 2 ^ 14 % 8) 0

-- The 18 bits that the chip takes from the two words of the request.
abbrev pub request_code : ℕ → ℕ → ℕ
request_code value index = value + index / 256 * 65536

abbrev is_sound : ℕ → ℕ → Bool
is_sound code divisor =
    let sent = bit_or code 0x2_0000 in
    let got = request_code (baud_value sent) (baud_index sent) in
    (got == sent)
    && ((sent / 2 ^ 17 == 1) && (divisor_read (sent % 2 ^ 17) == divisor))
    && (baud_index sent % 256 == 1)

encode_table : all_below 10_001 (λ d. ltb d 16 || is_sound (encode d) d) ≡ true
unfolding all_below encode baud_value baud_index
encode_table = refl

and_true : (a b : Bool) → (a && b) ≡ true → (a ≡ true) × (b ≡ true)
and_true a b h = ground arith

-- What the chip gets when `code` is sent with the high-speed bit.
pub record IsSent (divisor sent : ℕ) : Type 0 where
  pub split : request_code (baud_value sent) (baud_index sent) ≡ sent
  pub high_speed : sent / 2 ^ 17 ≡ 1
  pub reads : divisor_read (sent % 2 ^ 17) ≡ divisor
  pub interface : baud_index sent % 256 ≡ 1

is_sound-IsSent :
    (code divisor : ℕ) → is_sound code divisor ≡ true → IsSent divisor (bit_or code 0x2_0000)
is_sound-IsSent code divisor h =
    let (ab, d) = and_true _ _ h in
    let (a, b) = and_true _ _ ab in
    let (e, f) = and_true _ _ b in
    record {
      split = (==_iff _ _).0 a;
      high_speed = (==_iff _ _).0 e;
      reads = (==_iff _ _).0 f;
      interface = (==_iff _ _).0 d;
    }

or_false_left : (a b : Bool) → (a || b) ≡ true → a ≡ false → b ≡ true
or_false_left a b h e = ground arith

pub encode-IsSent : (d : ℕ) → 16 ≤ d → d ≤ 10_000 → IsSent d (bit_or (encode d) 0x2_0000)
encode-IsSent d lo hi = is_sound-IsSent (encode d) d (
    or_false_left _ _
      (all_below_at 10_001 (λ d. ltb d 16 || is_sound (encode d) d) d encode_table (omega arith))
      (le→ltb_not d 16 lo))

pub special-IsSent :
    IsSent 8 (bit_or 0 0x2_0000) × IsSent 12 (bit_or 1 0x2_0000) × IsSent 16 (bit_or 2 0x2_0000)
unfolding baud_value baud_index
special-IsSent = (is_sound-IsSent 0 8 refl, is_sound-IsSent 1 12 refl, is_sound-IsSent 2 16 refl)

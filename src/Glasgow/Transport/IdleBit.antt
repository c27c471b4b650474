-- ===== src/Glasgow/Transport/IdleBit.antt =====
-- The test of the transmitter's state register (src/uart/glasgow/transport.rs).
use Prim.Native.Nat.{bit_and, bit_and-bitwise, digits}
use glasgow_tool.Prelude.{
  ℕ, zero, suc, ◌+◌, ◌*◌, ◌/◌, ◌%◌, ◌^◌, ◌≤◌, ◌<◌, ◌≡◌, sym, ap, ◌∙◌, true, min, arith, ◌==◌, ◌&&◌,
  not,
}
use glasgow_tool.Glasgow.Transport.{is_idle, tx_idle_bit}

-- A mask of `k` low bits.
abbrev ones : ℕ → ℕ
ones zero = 0
ones (suc k) = ones k * 2 + 1

abbrev power : ℕ → ℕ
power zero = 1
power (suc k) = power k * 2

-- A number without one of those bits is a multiple of the next power.
multiple :
    (n k a : ℕ) → a ≤ n → digits (λ b. zero) min n a (ones k) ≡ 0 → (q : ℕ) × (a ≡ q * power k)
multiple n zero a h e = (a, omega arith)
multiple zero (suc k) zero h e = (0, omega arith)
multiple zero (suc k) (suc a) h e = absurd (omega arith)
multiple (suc n) (suc k) zero h e = (0, omega arith)
multiple (suc n) (suc k) (suc a) h e =
    let half : (ones k * 2 + 1) / 2 ≡ ones k = omega arith in
    let odd : (ones k * 2 + 1) % 2 ≡ 1 = omega arith in
    let low : digits (λ b. zero) min n (suc a / 2) ((ones k * 2 + 1) / 2) ≡ 0 = omega arith in
    let (q, part) =
      multiple n k (suc a / 2) (omega arith)
        (ap (λ m. digits (λ b. zero) min n (suc a / 2) m) (sym half) ∙ low) in
    (q, omega (arith, part, low, odd, e))

positive :
    (state q : ℕ)
    → state ≡ q * 2147483648
    → state < 2 ^ 32
    → 0 < bit_and state tx_idle_bit
    → state ≡ 2 ^ 31
positive zero q whole small top = absurd (omega arith)
positive (suc s) zero whole small top = absurd (omega arith)
positive (suc s) (suc zero) whole small top = omega arith
positive (suc s) (suc (suc q)) whole small top = absurd (omega arith)

both_tests : (top low : ℕ) → (not (top == 0) && (low == 0)) ≡ true → (0 < top) × (low ≡ 0)
both_tests top low e = ground arith

-- The state register is taken for idle only if its top bit is set and its other 31 bits are zero.
is_idle_exact : (state : ℕ) → state < 2 ^ 32 → is_idle state ≡ true → state ≡ 2 ^ 31
unfolding is_idle
is_idle_exact state small e =
    let (top, low) = both_tests (bit_and state tx_idle_bit) (bit_and state 0x7fff_ffff) e in
    let (q, whole) =
      multiple state 31 state (omega arith)
        (sym (λ i. bit_and-bitwise state 0x7fff_ffff i) ∙ low) in
    positive state q whole small top

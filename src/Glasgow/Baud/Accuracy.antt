-- ===== src/Glasgow/Baud/Accuracy.antt =====
-- How near the realized rate is (src/uart/glasgow/transport.rs).
use glasgow_tool.Prelude.{
  ℕ, ◌+◌, ◌*◌, ◌/◌, ◌≤◌, ◌<◌, ◌≡◌, refl, arith, ltb, Bool-cases, inl, inr, dec_lt,
}
use glasgow_tool.Error.{ok}
use glasgow_tool.Baud.{error_of, abs_diff}
use glasgow_tool.Baud.Division.{mul_mono, nearest, tolerance}
use glasgow_tool.Glasgow.Baud.{divisor_of, realize, baud_divisor}

quotient_bounds :
    (b : ℕ)
    → 9600 ≤ b
    → b ≤ 12_000_000
    → (4 ≤ (48_000_000 + b / 2) / b) × ((48_000_000 + b / 2) / b ≤ 5000)
quotient_bounds b lo hi = go ((48_000_000 + b / 2) / b) (nearest 48_000_000 b (omega arith))
  where
    go :
        (d : ℕ)
        → (d * b ≤ 48_000_000 + b / 2) × (48_000_000 + b / 2 < d * b + b)
        → (4 ≤ d) × (d ≤ 5000)
    go d (le, lt) = (
      elim (dec_lt d 4) [
        | yes h ↦ absurd (omega (arith, mul_mono d 3 b (omega arith)))
        | no h ↦ omega arith
      ],
      elim (dec_lt 5000 d) [
        | yes h ↦ absurd (omega (arith, mul_mono 5001 d b (omega arith)))
        | no h ↦ omega arith
      ],
    )

pub divisor_bounds :
    (b : ℕ)
    → 9600 ≤ b
    → b ≤ 12_000_000
    → (divisor_of b ≡ (48_000_000 + b / 2) / b) × (4 ≤ divisor_of b) × (divisor_of b ≤ 5000)
unfolding divisor_of
divisor_bounds b lo hi = ground (arith, quotient_bounds b lo hi)

realize_ok :
    (b d divisor actual : ℕ)
    → realize b d ≡ ok (divisor, actual)
    → (divisor ≡ d) × (actual ≡ 48_000_000 / d) × (error_of (48_000_000 / d) b ≤ 200)
unfolding realize
realize_ok b d divisor actual h = elim (Bool-cases (ltb 200 (error_of (48_000_000 / d) b))) [
  | inl e ↦ absurd (ground arith)
  | inr e ↦ ground arith
]

accepted :
    (b divisor actual : ℕ)
    → baud_divisor b ≡ ok (divisor, actual)
    → (9600 ≤ b) × (b ≤ 12_000_000) × (realize b (divisor_of b) ≡ ok (divisor, actual))
unfolding baud_divisor
accepted b divisor actual h = ground arith

-- An accepted rate lies in the supported range and is realized with an error below 2.01 % (the code's
-- limit of 2 %, which it compares after rounding down) by the divisor that is nearest to clock / rate;
-- the clamp to the 20 bits of the register never acts.
pub baud_divisor_accurate :
    (b divisor actual : ℕ)
    → baud_divisor b ≡ ok (divisor, actual)
    → (9600 ≤ b)
      × (b ≤ 12_000_000)
      × (4 ≤ divisor)
      × (divisor ≤ 5000)
      × (actual ≡ 48_000_000 / divisor)
      × (divisor * b ≤ 48_000_000 + b / 2)
      × (48_000_000 + b / 2 < divisor * b + b)
      × (abs_diff actual b * 10_000 < 201 * b)
baud_divisor_accurate b divisor actual h =
    let (lo, hi, e) = accepted b divisor actual h in
    let (d, a, t) = realize_ok b (divisor_of b) divisor actual e in
    let (q, four, most) = divisor_bounds b lo hi in
    let (le, lt) = nearest 48_000_000 b (omega arith) in
    rw (d, a)
      (
        lo,
        hi,
        four,
        most,
        refl,
        rw q le,
        rw q lt,
        tolerance (abs_diff (48_000_000 / divisor_of b) b) b (omega arith) t,
      )

-- ===== src/Glasgow/Baud/Total.antt =====
-- Which rates are accepted (src/uart/glasgow/transport.rs).
use glasgow_tool.Prelude.{
  ℕ, ◌+◌, ◌-◌, ◌*◌, ◌/◌, ◌≤◌, ◌<◌, ◌≡◌, arith, dec_lt, subst, le→ltb_not, le→leb,
}
use glasgow_tool.Error.{ok}
use glasgow_tool.Baud.{error_of, abs_diff}
use glasgow_tool.Baud.Division.{mul_mono, nearest}
use glasgow_tool.Glasgow.Baud.{divisor_of, realize, baud_divisor}
use glasgow_tool.Glasgow.Baud.Accuracy.{divisor_bounds}

-- A realized rate `x` above the requested one is off by at most half a divisor step.
over :
    (x b d : ℕ)
    → 25 ≤ d
    → (b + x) * d ≤ 48_000_000
    → 48_000_000 + b / 2 < d * b + b
    → x * 10_000 < 201 * b
over x b d hd le lt = omega (arith, mul_mono 25 d x hd)

-- One that lies `y + 1` below is off by at most that and the rounding of the division.
under :
    (y a d : ℕ)
    → 9600 ≤ a + 1 + y
    → 25 ≤ d
    → 48_000_000 < a * d + d
    → d * (a + 1 + y) ≤ 48_000_000 + (a + 1 + y) / 2
    → 48_000_000 + (a + 1 + y) / 2 < d * (a + 1 + y) + (a + 1 + y)
    → (y + 1) * 10_000 < 201 * (a + 1 + y)
under y a d lo hd lt le nx = elim (dec_lt 10_000 (a + 1 + y)) [
  | yes p ↦ omega (arith, mul_mono 25 d y hd)
  | no p ↦ elim (dec_lt d 4000) [
    | yes q ↦ absurd (omega (arith, mul_mono d 3999 (a + 1 + y) (omega arith)))
    | no q ↦ omega (arith, mul_mono 4000 d y (omega arith))
  ]
]

within : (x b : ℕ) → 0 < b → x * 10_000 < 201 * b → x * 10_000 / b ≤ 200
within x b h lt = elim (dec_lt 200 (x * 10_000 / b)) [
  | yes p ↦ absurd (omega (arith, mul_mono 201 (x * 10_000 / b) b p))
  | no p ↦ omega arith
]

near :
    (a b d : ℕ)
    → 9600 ≤ b
    → 25 ≤ d
    → (a * d ≤ 48_000_000) × (48_000_000 < a * d + d)
    → (d * b ≤ 48_000_000 + b / 2) × (48_000_000 + b / 2 < d * b + b)
    → abs_diff a b * 10_000 < 201 * b
near a b d lo hd (al, au) (le, lt) = elim (dec_lt a b) [
  | yes p ↦
      let y = b - a - 1 in
      let e : a + 1 + y ≡ b = omega arith in
      let h : (y + 1) * 10_000 < 201 * b =
        subst (λ t. (y + 1) * 10_000 < 201 * t) e
          (under y a d (rw e lo) hd au (rw e le) (rw e lt)) in
      ground (arith, h)
  | no p ↦
      let e : b + (a - b) ≡ a = omega arith in
      let h : (a - b) * 10_000 < 201 * b = over (a - b) b d hd (rw e al) lt in ground (arith, h)
]

divisor_least : (b d : ℕ) → b ≤ 1_950_000 → 48_000_000 + b / 2 < d * b + b → 25 ≤ d
divisor_least b d hi lt = elim (dec_lt d 25) [
  | yes p ↦ absurd (omega (arith, mul_mono d 24 b (omega arith)))
  | no p ↦ omega arith
]

realize_succeeds :
    (b d : ℕ) → error_of (48_000_000 / d) b ≤ 200 → realize b d ≡ ok (d, 48_000_000 / d)
unfolding realize
realize_succeeds b d h = rw (le→ltb_not 200 (error_of (48_000_000 / d) b) h)

-- Every rate from 9600 to 1 950 000 is accepted.
baud_divisor_total :
    (b : ℕ)
    → 9600 ≤ b
    → b ≤ 1_950_000
    → baud_divisor b ≡ ok (divisor_of b, 48_000_000 / divisor_of b)
unfolding baud_divisor
baud_divisor_total b lo hi =
    let d = divisor_of b in
    let a = 48_000_000 / d in
    let (q, _, _) = divisor_bounds b lo (omega arith) in
    let (le, lt) = nearest 48_000_000 b (omega arith) in
    let least = divisor_least b d hi (rw q lt) in
    let exact : (a * d ≤ 48_000_000) × (48_000_000 < a * d + d) = omega arith in
    rw (le→leb 9600 b lo, le→leb b 12_000_000 (omega arith))
      (realize_succeeds b d
        (within (abs_diff a b) b (omega arith) (near a b d lo least exact (rw q le, rw q lt))))

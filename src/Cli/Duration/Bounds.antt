-- ===== src/Cli/Duration/Bounds.antt =====
-- The durations that the parser can give (src/bin/common/mod.rs).
use glasgow_tool.Prelude.{
  ℕ, zero, suc, ◌+◌, ◌*◌, ◌/◌, ◌^◌, ◌≤◌, ◌≡◌, inl, inr, true, false, some, List, arith,
  Option-cases,
}
use glasgow_tool.Error.{ok}
use glasgow_tool.Cli.Float.{F64, nan, infinite, finite, nearest_even, times, unit_bits}
use glasgow_tool.Cli.Duration.{split_unit, parse_f64, from_secs_f64, duration_of, parse_duration}

-- 2 ^ 64 seconds
abbrev pub longest : ℕ
longest = 2 ^ 64 * 1_000_000_000

nearest_even-le : (n d : ℕ) → nearest_even n d ≤ n / d + 1
unfolding nearest_even
nearest_even-le n d = ground arith

from_secs_f64-le : (units ns : ℕ) → from_secs_f64 units ≡ some ns → ns ≤ longest
unfolding from_secs_f64
from_secs_f64-le units ns e =
    ground (arith, nearest_even-le (units * 1_000_000_000) (2 ^ unit_bits))

-- Whatever amount the text gives: a finite one above zero, or none.
duration_of-le :
    (amount : F64) (scale ns : ℕ) → duration_of amount scale ≡ some (ok ns) → ns ≤ longest
unfolding duration_of
duration_of-le nan scale ns e = cc
duration_of-le (infinite negative) scale ns e = cc
duration_of-le (finite true units) scale ns e = cc
duration_of-le (finite false zero) scale ns e = cc
duration_of-le (finite false (suc units)) scale ns e =
    elim (Option-cases (from_secs_f64 (times (suc units) scale))) [
      | inl n ↦ absurd (ground (arith, n))
      | inr (k, n) ↦ ground (arith, n, from_secs_f64-le (times (suc units) scale) k n)
    ]

-- A duration that is accepted is at most 2 ^ 64 seconds.
parse_duration-le : (value : List ℕ) (ns : ℕ) → parse_duration value ≡ some (ok ns) → ns ≤ longest
unfolding parse_duration
parse_duration-le value ns e = elim (Option-cases (split_unit value)) [
  | inl n ↦ absurd (ground (arith, n))
  | inr ((number, scale), n) ↦ elim (Option-cases (parse_f64 number)) [
    | inl m ↦ absurd (ground (arith, n, m))
    | inr (amount, m) ↦ duration_of-le amount scale ns (ground (arith, n, m))
  ]
]

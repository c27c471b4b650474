-- ===== src/Baud/Division.antt =====
-- Rounded division, and the tolerance test, as inequalities between products.
use glasgow_tool.Prelude.{ℕ, ◌+◌, ◌*◌, ◌/◌, ◌≤◌, ◌<◌, arith}

pub mul_mono : (x k b : ℕ) → x ≤ k → x * b ≤ k * b
mul_mono x k b h = grind arith

-- The quotient of a rounded division.
pub nearest :
    (n b : ℕ) → 0 < b → ((n + b / 2) / b * b ≤ n + b / 2) × (n + b / 2 < (n + b / 2) / b * b + b)
nearest n b h = omega arith

-- `x * 10_000 / b ≤ 200` is the tolerance of 2%, up to the rounding of the last place.
pub tolerance : (x b : ℕ) → 0 < b → x * 10_000 / b ≤ 200 → x * 10_000 < 201 * b
tolerance x b h t = omega (arith, mul_mono (x * 10_000 / b) 200 b t)

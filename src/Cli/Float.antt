-- ===== src/Cli/Float.antt =====
-- What the value parser of durations (src/bin/common/mod.rs) uses of f64: a finite number is its sign
-- and its size in units of 2 ^ -1074, the smallest positive f64. Conversions and products are
-- rounded to the nearest f64, ties to even, as in IEEE 754.
pub mod Exact
use glasgow_tool.Prelude.{
  ℕ, zero, suc, ◌+◌, ◌-◌, ◌*◌, ◌/◌, ◌%◌, ◌^◌, Bool, true, false, ◌&&◌, ◌||◌, ◌==◌, ltb, leb,
  if◌then◌else◌,
}

abbrev pub unit_bits : ℕ
unit_bits = 1074

pub data F64 : Type 0 where
  nan : F64
  infinite : Bool → F64
  finite : Bool → ℕ → F64

-- `n / d`, rounded to the nearest number, ties to even
unfoldable pub nearest_even : ℕ → ℕ → ℕ
nearest_even n d =
    let k = n / d in
    let r = n % d in if ltb d (2 * r) || (2 * r == d) && (k % 2 == 1) then k + 1 else k

-- How many binary digits `n` has; `fuel` is at least that.
unfoldable pub bit_length : ℕ → ℕ → ℕ
bit_length zero n = 0
bit_length (suc fuel) zero = 0
bit_length (suc fuel) (suc m) = suc (bit_length fuel (suc m / 2))

-- The distance of two neighbours at a size of `n` units: 53 binary digits are kept.
unfoldable pub spacing : ℕ → ℕ
unfolding bit_length
spacing n = 2 ^ (bit_length n n - 53)

-- `n / d` units, rounded
unfoldable pub rounded_units : ℕ → ℕ → ℕ
unfolding spacing nearest_even
rounded_units n d = let gap = spacing (n / d) in nearest_even n (d * gap) * gap

-- A number of units, or infinity from 2 ^ 1024 on
unfoldable pub of_units : Bool → ℕ → F64
of_units negative units =
    if leb (2 ^ (1024 + unit_bits)) units then infinite negative else finite negative units

-- The f64 nearest to `n / d`
unfoldable pub of_ratio : Bool → ℕ → ℕ → F64
unfolding rounded_units of_units
of_ratio negative n d = of_units negative (rounded_units (n * 2 ^ unit_bits) d)

-- The product of two positive finite numbers, which is finite here: the second is at most 1.
unfoldable pub times : ℕ → ℕ → ℕ
unfolding rounded_units
times a b = rounded_units (a * b) (2 ^ unit_bits)

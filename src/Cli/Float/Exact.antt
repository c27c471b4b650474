-- ===== src/Cli/Float/Exact.antt =====
-- Numbers that a rounding leaves as they are (src/bin/common/mod.rs, `f64`).
use native.Mathlib.Nat.{mul-div_cancel, mul-mod_left, pow-suc, mul_assoc, mul-one}
use glasgow_tool.Prelude.{
  ℕ, zero, suc, ◌+◌, ◌-◌, ◌*◌, ◌/◌, ◌%◌, ◌^◌, ◌≤◌, ◌<◌, ◌≡◌, sym, ap, ◌∙◌, subst, arith,
}
use glasgow_tool.Cli.Float.{nearest_even, bit_length, spacing, rounded_units}

pow_add : (a b : ℕ) → 2 ^ (a + b) ≡ 2 ^ a * 2 ^ b
pow_add a zero = let e : a + 0 ≡ a = omega arith in ap (λ k. 2 ^ k) e ∙ sym (mul-one (2 ^ a))
pow_add a (suc b) =
    let e : a + suc b ≡ suc (a + b) = omega arith in
    ap (λ k. 2 ^ k) e
    ∙ pow-suc 2 (a + b)
    ∙ ap (λ k. k * 2) (pow_add a b)
    ∙ mul_assoc (2 ^ a) (2 ^ b) 2
    ∙ ap (λ k. 2 ^ a * k) (sym (pow-suc 2 b))

pow_positive : (m : ℕ) → 0 < 2 ^ m
pow_positive zero = omega arith
pow_positive (suc m) = omega (arith, pow_positive m, pow-suc 2 m)

pub nearest_even-mul : (k d : ℕ) → 0 < d → nearest_even (k * d) d ≡ k
unfolding nearest_even
nearest_even-mul k d h =
    let q : k * d / d ≡ k = mul-div_cancel k h in
    let r : k * d % d ≡ 0 = mul-mod_left k d in ground (arith, q, r, h)

-- A number below 2 ^ m has at most `m` binary digits.
bit_length_bound : (fuel n m : ℕ) → n < 2 ^ m → bit_length fuel n ≤ m
unfolding bit_length
bit_length_bound zero n m h = omega arith
bit_length_bound (suc fuel) zero m h = omega arith
bit_length_bound (suc fuel) (suc n) zero h = absurd (omega arith)
bit_length_bound (suc fuel) (suc n) (suc m) h =
    omega (arith, bit_length_bound fuel (suc n / 2) m (omega (arith, pow-suc 2 m)))

regroup : (n p q d : ℕ) → n * (p * q) * d ≡ n * p * (d * q)
regroup n p q d = grind arith

-- A multiple of the spacing is kept.
kept_at :
    (n m d j : ℕ) → j ≤ m → 0 < d → nearest_even (n * 2 ^ m * d) (d * 2 ^ j) * 2 ^ j ≡ n * 2 ^ m
kept_at n m d j le positive =
    let split : 2 ^ m ≡ 2 ^ (m - j) * 2 ^ j = ap (λ k. 2 ^ k) (omega arith) ∙ pow_add (m - j) j in
    let gap : 0 < d * 2 ^ j = grind (arith, pow_positive j) in
    let same : n * 2 ^ m * d ≡ n * 2 ^ (m - j) * (d * 2 ^ j) =
      ap (λ k. n * k * d) split ∙ regroup n (2 ^ (m - j)) (2 ^ j) d in
    ap (λ k. nearest_even k (d * 2 ^ j) * 2 ^ j) same
    ∙ ap (λ k. k * 2 ^ j) (nearest_even-mul (n * 2 ^ (m - j)) (d * 2 ^ j) gap)
    ∙ mul_assoc n (2 ^ (m - j)) (2 ^ j)
    ∙ ap (λ k. n * k) (sym split)

below : (n m : ℕ) → n < 2 ^ 53 → n * 2 ^ m < 2 ^ (53 + m)
below n m small = subst (λ k. n * 2 ^ m < k) (sym (pow_add 53 m)) (grind (arith, pow_positive m))

-- A whole number of at most 53 binary digits, in any power of two of the units, is kept.
pub rounded_units-exact :
    (n m d : ℕ) → n < 2 ^ 53 → 0 < d → rounded_units (n * 2 ^ m * d) d ≡ n * 2 ^ m
unfolding rounded_units spacing
rounded_units-exact n m d small positive =
    let q : n * 2 ^ m * d / d ≡ n * 2 ^ m = mul-div_cancel (n * 2 ^ m) positive in
    let size : bit_length (n * 2 ^ m) (n * 2 ^ m) ≤ 53 + m =
      bit_length_bound (n * 2 ^ m) (n * 2 ^ m) (53 + m) (below n m small) in
    subst
      (λ k.
        nearest_even (n * 2 ^ m * d) (d * 2 ^ (bit_length k k - 53)) * 2 ^ (bit_length k k - 53)
        ≡ n * 2 ^ m)
      (sym q)
      (kept_at n m d (bit_length (n * 2 ^ m) (n * 2 ^ m) - 53) (omega (arith, size)) positive)

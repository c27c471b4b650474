-- ===== src/C232/Status/Bits.antt =====
-- The line status bits, read arithmetically (src/uart/c232/usb.rs).
use glasgow_tool.Prelude.{
  ℕ, ◌/◌, ◌%◌, ◌<◌, ◌≡◌, refl, Bool, true, false, ◌&&◌, ◌||◌, not, some, arith, ◌==◌, all_below,
  all_below_at,
}
use glasgow_tool.C232.Status.{is_overflow, is_error}

abbrev same : Bool → Bool → Bool
same true b = b
same false b = not b

same_eq : (a b : Bool) → same a b ≡ true → a ≡ b
same_eq a b h = ground arith

-- Bit `2 ^ k` goes from 0 to 1.
abbrev pub rises : ℕ → ℕ → ℕ → Bool
rises weight line previous = (line / weight % 2 == 1) && (previous / weight % 2 == 0)

overflow_table :
    all_below 256 (λ line. all_below 256 (λ p. same (is_overflow line (some p)) (rises 2 line p)))
    ≡ true
unfolding all_below is_overflow
overflow_table = refl

error_table :
    all_below 256 (λ line.
      all_below 256 (λ p.
        same (is_error line (some p)) (rises 4 line p || (rises 8 line p || rises 16 line p))))
    ≡ true
unfolding all_below is_error
error_table = refl

pub is_overflow-eq-rises :
    (line p : ℕ) → line < 256 → p < 256 → is_overflow line (some p) ≡ rises 2 line p
is_overflow-eq-rises line p hl hp = same_eq _ _ (
    all_below_at 256 _ p
      (all_below_at 256
        (λ line. all_below 256 (λ p. same (is_overflow line (some p)) (rises 2 line p))) line
        overflow_table hl)
      hp)

pub is_error-eq-rises :
    (line p : ℕ)
    → line < 256
    → p < 256
    → is_error line (some p) ≡ (rises 4 line p || (rises 8 line p || rises 16 line p))
is_error-eq-rises line p hl hp = same_eq _ _ (
    all_below_at 256 _ p
      (all_below_at 256
        (λ line. all_below 256 (λ p.
          same (is_error line (some p)) (rises 4 line p || (rises 8 line p || rises 16 line p))))
        line error_table hl)
      hp)

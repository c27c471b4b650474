-- ===== src/Glasgow/Management/Registers.antt =====
-- What a register write sends and a register read decodes (src/uart/glasgow/management.rs).
use glasgow_tool.Prelude.{
  ℕ, zero, suc, ◌+◌, ◌*◌, ◌/◌, ◌%◌, ◌^◌, ◌≤◌, ◌≡◌, ap, some, List, [], ◌∷◌, ◌++◌, arith,
}
use glasgow_tool.Error.{ok}
use glasgow_tool.Glasgow.Management.{register_bytes, register_value}

abbrev pub mirror : List ℕ → List ℕ
mirror [] = []
mirror (b ∷ bs) = mirror bs ++ b ∷ []

value_mirrored :
    (value : ℕ)
    → value % 256
        + value / 2 ^ 8 % 256 * 2 ^ 8
        + value / 2 ^ 16 % 256 * 2 ^ 16
        + value / 2 ^ 24 % 256 * 2 ^ 24
      ≡ value % 2 ^ 32
value_mirrored value = omega arith

-- A write sends a register's bytes with the high byte first and a read takes the low byte first: the
-- bytes of a write, mirrored, are read as the value, cut to the register's width.
pub registers_mirrored :
    (width value : ℕ)
    → width ≤ 4
    → register_value width (0 ∷ mirror (register_bytes width value))
      ≡ some (ok (value % 2 ^ (8 * width)))
unfolding register_value
registers_mirrored zero value h = ap (λ v. some (ok v)) (omega arith)
registers_mirrored (suc zero) value h = ap (λ v. some (ok v)) (omega arith)
registers_mirrored (suc (suc zero)) value h = ap (λ v. some (ok v)) (omega arith)
registers_mirrored (suc (suc (suc zero))) value h = ap (λ v. some (ok v)) (omega arith)
registers_mirrored (suc (suc (suc (suc zero)))) value h = ap (λ v. some (ok v)) (omega arith)
registers_mirrored (suc (suc (suc (suc (suc w))))) value h = absurd (omega arith)

-- ===== src/Prelude/Bytes.antt =====
-- Facts about all bytes, by checking every value.
use Prim.Native.Nat.{ℕ, zero, suc, ◌<◌}
use mathlib.Core.Path.{◌≡◌, refl, ap₂}
use mathlib.Core.Bool.{Bool, true, false, ◌&&◌}
use mathlib.Core.List.{List, [], ◌∷◌}
use glasgow_tool.Prelude.Tests.{◌==◌, if◌then◌else◌}
use native.Mathlib.Omega.{arith}

-- `p` holds of every number below `n`.
unfoldable pub all_below : ℕ → (ℕ → Bool) → Bool
all_below zero p = true
all_below (suc n) p = p n && all_below n p

pub all_below_at : (n : ℕ) (p : ℕ → Bool) (x : ℕ) → all_below n p ≡ true → x < n → p x ≡ true
unfolding all_below
all_below_at zero p x h lt = absurd (omega arith)
all_below_at (suc n) p x h lt = ground (arith, all_below_at n p x)

-- The equality of two slices of bytes.
abbrev pub same_bytes : List ℕ → List ℕ → Bool
same_bytes [] [] = true
same_bytes (x ∷ xs) (y ∷ ys) = let rest = same_bytes xs ys in if x == y then rest else false
same_bytes _ _ = false

pub same_bytes_exact : (xs ys : List ℕ) → same_bytes xs ys ≡ true → xs ≡ ys
same_bytes_exact [] [] h = refl
same_bytes_exact [] (y ∷ ys) h = cc
same_bytes_exact (x ∷ xs) [] h = cc
same_bytes_exact (x ∷ xs) (y ∷ ys) h =
    let same : x ≡ y = ground arith in
    let rest = same_bytes_exact xs ys (ground arith) in ap₂ (λ a l. a ∷ l) same rest

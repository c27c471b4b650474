-- ===== src/Io.antt =====
-- Fallible calls on the outside world, in a row: what opening a device is made of.
pub mod Keeps
use glasgow_tool.Prelude.{◌≡◌, refl, ◌⊎◌, inl, inr, arith}
use glasgow_tool.Error.{Error, Result, ok, err, Result-cases}

abbrev pub Io : Type 0 → Type 0 → Type 0
Io W A = W → Result Error A × W

module _ {W : Type 0} where
  infixl 5 ◌>>=◌ ◌>>◌
  unfoldable pub ◌>>=◌ : {A B : Type 0} → Io W A → (A → Io W B) → Io W B
  ◌>>=◌ m f w = let (r, w1) = m w in elim r [ ok a ↦ f a w1 | err e ↦ (err e, w1) ]

  abbrev pub ◌>>◌ : {B : Type 0} → Io W Unit → Io W B → Io W B
  m >> k = m >>= λ _. k

  unfoldable pub pure : {A : Type 0} → A → Io W A
  pure a w = (ok a, w)

  unfoldable pub fail : {A : Type 0} → Error → Io W A
  fail e w = (err e, w)

  -- A result that is there already.
  unfoldable pub give : {A : Type 0} → Result Error A → Io W A
  give r w = (r, w)

  -- `map_err` on a call
  unfoldable pub call : {E A : Type 0} → (E → Error) → (W → Result E A × W) → Io W A
  call category f w =
      let (r, w1) = f w in elim r [ ok a ↦ (ok a, w1) | err e ↦ (err (category e), w1) ]

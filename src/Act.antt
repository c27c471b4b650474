-- ===== src/Act.antt =====
-- Operations on a state that succeed, fail, or do not return (a panic, or no fuel left).
pub mod Keeps
pub mod Triple
use glasgow_tool.Prelude.{Option, none, some}
use glasgow_tool.Error.{Error, Result, ok, err}

abbrev pub Act : Type 0 → Type 0 → Type 0
Act S A = S → Option (Result Error A × S)

module _ {S : Type 0} where
  abbrev pub after :
      {A B : Type 0} → Option (Result Error A × S) → (A → Act S B) → Option (Result Error B × S)
  after none f = none
  after (some (err e, s)) f = some (err e, s)
  after (some (ok a, s)) f = f a s

  infixl 5 ◌>>=◌ ◌>>◌
  unfoldable pub ◌>>=◌ : {A B : Type 0} → Act S A → (A → Act S B) → Act S B
  ◌>>=◌ m f s = after (m s) f

  abbrev pub ◌>>◌ : {B : Type 0} → Act S Unit → Act S B → Act S B
  m >> k = m >>= λ _. k

  unfoldable pub pure : {A : Type 0} → A → Act S A
  pure a s = some (ok a, s)

  unfoldable pub fail : {A : Type 0} → Error → Act S A
  fail e s = some (err e, s)

  unfoldable pub give : {A : Type 0} → Result Error A → Act S A
  give r s = some (r, s)

  -- `map_err` on a call that always returns
  unfoldable pub call : {E A : Type 0} → (E → Error) → (S → Result E A × S) → Act S A
  call category f s =
      let (answer, s1) = f s in
      elim answer [ ok a ↦ some (ok a, s1) | err error ↦ some (err (category error), s1) ]

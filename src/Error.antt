-- ===== src/Error.antt =====
-- src/error.rs: the error categories that every operation returns, the `Result` type of the
-- library, and the parts of std::io that the code uses.
use glasgow_tool.Prelude.{String, ◌≡◌, refl, ◌⊎◌, inl, inr}

-- `Error`; each variant carries its message.
pub data Error : Type 0 where
  selection access protocol timeout validation : String → Error

-- `Result<T, E>`
pub data Result {ℓ} (E A : Type ℓ) : Type ℓ where
  ok : A → Result E A
  err : E → Result E A

infixl 5 ◌>>=◌ ◌>>◌
abbrev pub ◌>>=◌ {ℓ} : {E A B : Type ℓ} → Result E A → (A → Result E B) → Result E B
ok a >>= f = f a
err e >>= f = err e

abbrev pub ◌>>◌ {ℓ} : {E B : Type ℓ} → Result E (Unit {ℓ}) → Result E B → Result E B
m >> k = m >>= λ _. k

-- `Result::map_err`
abbrev pub map_err {ℓ} : {E F A : Type ℓ} → (E → F) → Result E A → Result F A
map_err f (ok a) = ok a
map_err f (err e) = err (f e)

-- The kinds of std::io::ErrorKind that the code names; `other` is every other kind.
pub data ErrorKind : Type 0 where
  interrupted would_block timed_out permission_denied broken_pipe not_connected : ErrorKind
  unexpected_eof invalid_data write_zero other : ErrorKind

-- A std::io::Error: its kind and what `to_string` gives.
pub record IoError : Type 0 where
  pub kind : ErrorKind
  pub message : String

pub Result-cases :
    {E A : Type 0} (r : Result E A) → ((e : E) × (r ≡ err e)) ⊎ ((a : A) × (r ≡ ok a))
Result-cases (ok a) = inr (a, refl)
Result-cases (err e) = inl (e, refl)

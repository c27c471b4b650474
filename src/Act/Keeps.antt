-- ===== src/Act/Keeps.antt =====
-- Invariants of operations on a state, one rule for each way to build an operation.
use glasgow_tool.Prelude.{◌≡◌, ◌≢◌, refl, subst, Option, none, some, arith}
use glasgow_tool.Error.{Error, Result, ok, err}
use glasgow_tool.Act.{Act, ◌>>=◌, pure, fail, give, after}

-- Where `m` ends from a state with `P`, `P` holds.
pub record Keeps {S A : Type 0} (P : S → Type 0) (m : Act S A) : Type 0 where
  pub at : (s : S) → P s → (r : Result Error A) (s' : S) → m s ≡ some (r, s') → P s'

module _ {S : Type 0} {P : S → Type 0} where
  pub Keeps-pure : {A : Type 0} (a : A) → Keeps P (pure a)
  unfolding pure
  Keeps-pure a = record { at = λ s h r s' e. subst P (ground (arith, e)) h }

  pub Keeps-fail : {A : Type 0} (x : Error) → Keeps P (fail {A = A} x)
  unfolding fail
  Keeps-fail x = record { at = λ s h r s' e. subst P (ground (arith, e)) h }

  pub Keeps-give : {A : Type 0} (x : Result Error A) → Keeps P (give x)
  unfolding give
  Keeps-give x = record { at = λ s h r s' e. subst P (ground (arith, e)) h }

  after_at :
      {A B : Type 0} (o : Option (Result Error A × S)) (f : A → Act S B)
      → ((r : Result Error A) (s' : S) → o ≡ some (r, s') → P s')
      → ((a : A) → Keeps P (f a))
      → (r : Result Error B) (s' : S) → after o f ≡ some (r, s')
      → P s'
  after_at none f h k r s' e = cc
  after_at (some (err x, s)) f h k r s' e = subst P (ground (arith, e)) (h (err x) s refl)
  after_at (some (ok a, s)) f h k r s' e = (k a).at s (h (ok a) s refl) r s' e

  pub Keeps-bind :
      {A B : Type 0} (m : Act S A) (f : A → Act S B)
      → Keeps P m
      → ((a : A) → Keeps P (f a))
      → Keeps P (m >>= f)
  unfolding ◌>>=◌
  Keeps-bind m f h k = record { at = λ s p r s' e. after_at (m s) f (h.at s p) k r s' e }

pub ruleset keeps_rules = (Keeps-pure, Keeps-fail, Keeps-give, Keeps-bind)

after_ok :
    {S A B : Type 0} (o : Option (Result Error A × S)) (f : A → Act S B) (s' : S) (b : B)
    → after o f ≡ some (ok b, s')
    → (a : A) × (s1 : S) × (o ≡ some (ok a, s1)) × (f a s1 ≡ some (ok b, s'))
after_ok none f s' b e = cc
after_ok (some (err x, s)) f s' b e = cc
after_ok (some (ok a, s)) f s' b e = (a, s, refl, e)

-- A chain that succeeds is a call that succeeds and then the rest.
pub bind_ok :
    {S A B : Type 0} (m : Act S A) (f : A → Act S B) (s s' : S) (b : B)
    → (m >>= f) s ≡ some (ok b, s')
    → (a : A) × (s1 : S) × (m s ≡ some (ok a, s1)) × (f a s1 ≡ some (ok b, s'))
unfolding ◌>>=◌
bind_ok m f s s' b e = after_ok (m s) f s' b e

after-ne-none :
    {S A B : Type 0} (o : Option (Result Error A × S)) (f : A → Act S B)
    → o ≢ none
    → ((a : A) (s1 : S) → o ≡ some (ok a, s1) → f a s1 ≢ none)
    → after o f ≢ none
after-ne-none none f h k = absurd (h refl)
after-ne-none (some (err x, s)) f h k = λ e. cc
after-ne-none (some (ok a, s)) f h k = k a s refl

-- A chain returns if its parts do.
pub bind-ne-none :
    {S A B : Type 0} (m : Act S A) (f : A → Act S B) (s : S)
    → m s ≢ none
    → ((a : A) (s1 : S) → m s ≡ some (ok a, s1) → f a s1 ≢ none)
    → (m >>= f) s ≢ none
unfolding ◌>>=◌
bind-ne-none m f s h k = after-ne-none (m s) f h k

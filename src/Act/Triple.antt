-- ===== src/Act/Triple.antt =====
-- What holds after an operation that succeeds, and after one that fails.
use glasgow_tool.Prelude.{◌≡◌, refl, subst, Option, none, some, arith}
use glasgow_tool.Error.{Error, Result, ok, err}
use glasgow_tool.Act.{Act, ◌>>=◌, pure, give, after}

-- From a state with `P`, a success ends in a state with `Q`, a failure in one with `E`.
pub record Triple {S A : Type 0} (E P Q : S → Type 0) (m : Act S A) : Type 0 where
  pub succeeds : (s : S) → P s → (a : A) (s' : S) → m s ≡ some (ok a, s') → Q s'
  pub fails : (s : S) → P s → (e : Error) (s' : S) → m s ≡ some (err e, s') → E s'

module _ {S : Type 0} {E : S → Type 0} where
  after_succeeds :
      {A B : Type 0} {Q R : S → Type 0} (o : Option (Result Error A × S)) (f : A → Act S B)
      → ((a : A) (s : S) → o ≡ some (ok a, s) → Q s)
      → ((a : A) → Triple E Q R (f a))
      → (b : B) (s' : S) → after o f ≡ some (ok b, s')
      → R s'
  after_succeeds none f h k b s' e = cc
  after_succeeds (some (err x, s)) f h k b s' e = cc
  after_succeeds (some (ok a, s)) f h k b s' e = (k a).succeeds s (h a s refl) b s' e

  after_fails :
      {A B : Type 0} {Q R : S → Type 0} (o : Option (Result Error A × S)) (f : A → Act S B)
      → ((a : A) (s : S) → o ≡ some (ok a, s) → Q s)
      → ((x : Error) (s : S) → o ≡ some (err x, s) → E s)
      → ((a : A) → Triple E Q R (f a))
      → (x : Error) (s' : S) → after o f ≡ some (err x, s')
      → E s'
  after_fails none f h g k x s' e = cc
  after_fails (some (err y, s)) f h g k x s' e =
      let same : s ≡ s' = ground (arith, e) in subst E same (g y s refl)
  after_fails (some (ok a, s)) f h g k x s' e = (k a).fails s (h a s refl) x s' e

  pub Triple-bind :
      {A B : Type 0} {P R : S → Type 0} (Q : S → Type 0) (m : Act S A) (f : A → Act S B)
      → Triple E P Q m
      → ((a : A) → Triple E Q R (f a))
      → Triple E P R (m >>= f)
  unfolding ◌>>=◌
  Triple-bind Q m f h k = record {
    succeeds = λ s p b s' e. after_succeeds {Q = Q} (m s) f (h.succeeds s p) k b s' e;
    fails = λ s p x s' e. after_fails {Q = Q} (m s) f (h.succeeds s p) (h.fails s p) k x s' e;
  }

  pub Triple-pure : {A : Type 0} {P : S → Type 0} (a : A) → Triple E P P (pure a)
  unfolding pure
  Triple-pure {P = P} a = record {
    succeeds = λ s p b s' e. let same : s ≡ s' = ground (arith, e) in subst P same p;
    fails = λ s p x s' e. cc;
  }

  pub Triple-give :
      {A : Type 0} {P : S → Type 0} (r : Result Error A)
      → ((s : S) → P s → E s)
      → Triple E P P (give r)
  unfolding give
  Triple-give {P = P} r imp = record {
    succeeds = λ s p b s' e. let same : s ≡ s' = ground (arith, e) in subst P same p;
    fails = λ s p x s' e. let same : s ≡ s' = ground (arith, e) in subst E same (imp s p);
  }

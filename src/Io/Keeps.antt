-- ===== src/Io/Keeps.antt =====
-- What a chain of calls leaves as it was, and how it ends.
use glasgow_tool.Prelude.{◌≡◌, refl, sym, subst, ◌∙◌, ◌⊎◌, inl, inr, arith}
use glasgow_tool.Error.{Error, Result, ok, err, Result-cases}
use glasgow_tool.Io.{Io, ◌>>=◌, pure, fail, give, call}

-- A call leaves what is seen of the world as it was.
pub record Keeps {W S R : Type 0} (view : W → S) (f : W → R × W) : Type 0 where
  pub at : (w : W) → view (f w).1 ≡ view w

module _ {W S : Type 0} {view : W → S} where
  pub Keeps-pure : {A : Type 0} (a : A) → Keeps view (pure a)
  unfolding pure
  Keeps-pure a = record { at = λ w. refl }

  pub Keeps-fail : {A : Type 0} (e : Error) → Keeps view (fail {A = A} e)
  unfolding fail
  Keeps-fail e = record { at = λ w. refl }

  pub Keeps-give : {A : Type 0} (r : Result Error A) → Keeps view (give r)
  unfolding give
  Keeps-give r = record { at = λ w. refl }

  call_at :
      {E A : Type 0} (category : E → Error) (f : W → Result E A × W)
      → Keeps view f
      → (w : W) → view (call category f w).1 ≡ view w
  unfolding call
  call_at category f h w = elim (Result-cases (f w).0) [
    | inl (e, p) ↦ ground (arith, h.at w, p)
    | inr (a, p) ↦ ground (arith, h.at w, p)
  ]

  pub Keeps-call :
      {E A : Type 0} (category : E → Error) (f : W → Result E A × W)
      → Keeps view f
      → Keeps view (call category f)
  Keeps-call category f h = record { at = call_at category f h }

  bind_at :
      {A B : Type 0} (m : Io W A) (f : A → Io W B)
      → Keeps view m
      → ((a : A) → Keeps view (f a))
      → (w : W) → view ((m >>= f) w).1 ≡ view w
  unfolding ◌>>=◌
  bind_at m f h k w = elim (Result-cases (m w).0) [
    | inl (e, p) ↦ ground (arith, h.at w, p)
    | inr (a, p) ↦ ground (arith, h.at w, (k a).at (m w).1, p)
  ]

  pub Keeps-bind :
      {A B : Type 0} (m : Io W A) (f : A → Io W B)
      → Keeps view m
      → ((a : A) → Keeps view (f a))
      → Keeps view (m >>= f)
  Keeps-bind m f h k = record { at = bind_at m f h k }

pub ruleset keeps_rules = (Keeps-pure, Keeps-fail, Keeps-give, Keeps-call, Keeps-bind)

-- How a chain of calls ended: where it failed, or how it went on.
pub bind-cases :
    {W A B : Type 0} (m : Io W A) (f : A → Io W B) (w : W)
    → ((e : Error) × (m w ≡ (err e, (m w).1)) × ((m >>= f) w ≡ (err e, (m w).1)))
      ⊎ ((a : A) × (m w ≡ (ok a, (m w).1)) × ((m >>= f) w ≡ f a (m w).1))
unfolding ◌>>=◌
bind-cases m f w = elim (Result-cases (m w).0) [
  | inl (e, p) ↦ inl (e, ground (arith, p), ground (arith, p))
  | inr (a, p) ↦ inr (a, ground (arith, p), ground (arith, p))
]

-- What holds of a chain's end, if the first call keeps what is seen and the rest has it.
pub after-bind :
    {W S A B : Type 0} (view : W → S) (s : S) (P : Result Error B × W → Type 0) (m : Io W A)
    (f : A → Io W B)
    → Keeps view m
    → ((e : Error) (w : W) → view w ≡ s → P (err e, w))
    → ((a : A) (w : W) → view w ≡ s → P (f a w))
    → (w : W) → view w ≡ s
    → P ((m >>= f) w)
after-bind view s P m f keeps failed goes_on w h = elim (bind-cases m f w) [
  | inl (e, p, q) ↦ subst P (sym q) (failed e (m w).1 (keeps.at w ∙ h))
  | inr (a, p, q) ↦ subst P (sym q) (goes_on a (m w).1 (keeps.at w ∙ h))
]

-- A chain that succeeds is a call that succeeds and then the rest.
pub io_bind_ok :
    {W A B : Type 0} (m : Io W A) (f : A → Io W B) (w w' : W) (b : B)
    → (m >>= f) w ≡ (ok b, w')
    → (a : A) × (w1 : W) × (m w ≡ (ok a, w1)) × (f a w1 ≡ (ok b, w'))
io_bind_ok m f w w' b e = elim (bind-cases m f w) [
  | inl (x, p, q) ↦ absurd (ground (arith, e, q))
  | inr (a, p, q) ↦ (a, (m w).1, p, sym q ∙ e)
]

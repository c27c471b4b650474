-- ===== src/Prelude/Sorting.antt =====
-- `sort_by` of a slice, which is stable, and predicates over all of a list.
use Prim.Native.Nat.{Ordering}
use mathlib.Core.Bool.{Bool, true, false}
use mathlib.Core.Logic.{inl, inr}
use mathlib.Core.List.{List, [], ◌∷◌}
use glasgow_tool.Prelude.Tests.{Bool-cases, if◌then◌else◌}

-- The order of pairs.
abbrev pub first_then : Ordering → Ordering → Ordering
first_then Ordering.eq second = second
first_then first second = first

abbrev pub comes_after : Ordering → Bool
comes_after Ordering.gt = true
comes_after _ = false

module _ {ℓ} {A : Type ℓ} (compare : A → A → Ordering) where
  unfoldable pub insert_sorted : A → List A → List A
  insert_sorted x [] = x ∷ []
  insert_sorted x (y ∷ ys) =
      let later = insert_sorted x ys in if comes_after (compare x y) then y ∷ later else x ∷ y ∷ ys

  unfoldable pub sort_by : List A → List A
  unfolding insert_sorted
  sort_by [] = []
  sort_by (x ∷ xs) = insert_sorted x (sort_by xs)

abbrev pub All {ℓ} : {A : Type ℓ} → (A → Type ℓ) → List A → Type ℓ
All P [] = Unit
All P (x ∷ xs) = P x × All P xs

pub All-map :
    {A : Type 0} {P Q : A → Type 0} (f : (x : A) → P x → Q x) (xs : List A) → All P xs → All Q xs
All-map f [] h = tt
All-map f (x ∷ xs) h = (f x h.0, All-map f xs h.1)

module _ {A : Type 0} (P : A → Type 0) (compare : A → A → Ordering) where
  insert_sorted-All : (x : A) (ys : List A) → P x → All P ys → All P (insert_sorted compare x ys)
  unfolding insert_sorted
  insert_sorted-All x [] h hs = (h, tt)
  insert_sorted-All x (y ∷ ys) h hs = elim (Bool-cases (comes_after (compare x y))) [
    | inl e ↦ rw e (hs.0, insert_sorted-All x ys h hs.1)
    | inr e ↦ rw e (h, hs)
  ]

  pub sort_by-All : (xs : List A) → All P xs → All P (sort_by compare xs)
  unfolding sort_by
  sort_by-All [] h = tt
  sort_by-All (x ∷ xs) h = insert_sorted-All x (sort_by compare xs) h.0 (sort_by-All xs h.1)

-- ===== src/C232/Paths.antt =====
-- When two paths are equal, as `Path` compares them on Unix (src/uart/c232/vcp.rs, `same_path`): by
-- their components, so that repeated and trailing slashes do not count, nor does a `.` but for one
-- that begins a relative path.
use Prim.Native.Char.{code}
use text.Mathlib.Text
use text.Mathlib.TextEquality.{eq_iff}
use glasgow_tool.Prelude.{
  ◌≡◌, refl, ap₂, Bool, true, false, ◌||◌, ◌&&◌, not, String, List, [], ◌∷◌, ◌==◌, arith,
  if◌then◌else◌,
}

-- The text before the first slash, and the texts between the slashes.
unfoldable pub split_path : String → String × List String
split_path String.[] = ("", [])
split_path (String.◌∷◌ c s) =
    let (first, rest) = split_path s in
    if code c == 0x2f then ("", first ∷ rest) else (String.◌∷◌ c first, rest)

abbrev pub is_rooted : String → Bool
is_rooted String.[] = false
is_rooted (String.◌∷◌ c s) = code c == 0x2f

unfoldable pub plain_names : List String → List String
plain_names [] = []
plain_names (name ∷ names) =
    let rest = plain_names names in
    if Text.◌==◌ name "" || Text.◌==◌ name "." then rest else name ∷ rest

-- Whether the path begins at the root, and its other components.
unfoldable pub components : String → Bool × List String
unfolding split_path plain_names
components path =
    let (first, rest) = split_path path in
    if Text.◌==◌ first "."
    then (is_rooted path, "." ∷ plain_names rest)
    else (is_rooted path, plain_names (first ∷ rest))

abbrev pub same_bool : Bool → Bool → Bool
same_bool true b = b
same_bool false b = not b

abbrev pub same_texts : List String → List String → Bool
same_texts [] [] = true
same_texts (x ∷ xs) (y ∷ ys) = let rest = same_texts xs ys in Text.◌==◌ x y && rest
same_texts _ _ = false

-- `left == right`
unfoldable pub path_eq : String → String → Bool
path_eq left right =
    same_bool (components left).0 (components right).0
    && same_texts (components left).1 (components right).1

same_bool_exact : (a b : Bool) → same_bool a b ≡ true → a ≡ b
same_bool_exact a b h = ground arith

same_bool_refl : (a : Bool) → same_bool a a ≡ true
same_bool_refl a = ground arith

same_texts_exact : (xs ys : List String) → same_texts xs ys ≡ true → xs ≡ ys
same_texts_exact [] [] h = refl
same_texts_exact [] (y ∷ ys) h = cc
same_texts_exact (x ∷ xs) [] h = cc
same_texts_exact (x ∷ xs) (y ∷ ys) h =
    ap₂ (λ a l. a ∷ l) ((eq_iff x y).0 (ground arith)) (same_texts_exact xs ys (ground arith))

same_texts_refl : (xs : List String) → same_texts xs xs ≡ true
same_texts_refl [] = refl
same_texts_refl (x ∷ xs) = rw ((eq_iff x x).1 refl, same_texts_refl xs) refl

pub path_eq_exact :
    (left right : String) → path_eq left right ≡ true → components left ≡ components right
unfolding path_eq
path_eq_exact left right h =
    ap₂ (λ a l. (a, l)) (same_bool_exact (components left).0 (components right).0 (ground arith))
      (same_texts_exact (components left).1 (components right).1 (ground arith))

pub path_eq_of_components :
    (left right : String) → components left ≡ components right → path_eq left right ≡ true
unfolding path_eq
path_eq_of_components left right e =
    rw (e, same_bool_refl (components right).0, same_texts_refl (components right).1) refl

-- ===== src/C232/Sysfs/Links.antt =====
-- What the stable path of a serial port is (`stable_path` in src/uart/c232/vcp.rs).
use Prim.Native.String
use text.Mathlib.Text
use glasgow_tool.Prelude.{
  ◌≡◌, refl, subst, ◌⊎◌, inl, inr, true, none, some, String, Option, List, [], ◌∷◌, arith,
  Option-cases, Bool-cases, All, All-map,
}
use glasgow_tool.C232.Sysfs.{Files, is_link, links, least_from, least, stable_path}

-- An entry of the directory that could be read.
abbrev IsEntry : List (Option String) → String → Type 0
IsEntry [] path = ⊥
IsEntry (entry ∷ entries) path = (entry ≡ some path) ⊎ IsEntry entries path

-- An entry that is resolved to the file with this name.
abbrev LinksTo : Files → String → List (Option String) → String → Type 0
LinksTo files target entries path = IsEntry entries path × (is_link files target path ≡ true)

links-All :
    (files : Files) (target : String) (entries : List (Option String))
    → All (LinksTo files target entries) (links files target entries)
unfolding links
links-All files target [] = tt
links-All files target (none ∷ entries) =
    All-map {P = LinksTo files target entries} {Q = LinksTo files target (none ∷ entries)}
      (λ path h. (inr h.0, h.1)) (links files target entries) (links-All files target entries)
links-All files target (some path ∷ entries) =
    let more =
      All-map {P = LinksTo files target entries} {Q = LinksTo files target (some path ∷ entries)}
        (λ path h. (inr h.0, h.1)) (links files target entries) (links-All files target entries) in
    elim (Bool-cases (is_link files target path)) [
      | inl e ↦ rw e ((inl refl, e), more)
      | inr e ↦ rw e more
    ]

least_from-All :
    (P : String → Type 0) (best : String) (paths : List String)
    → P best
    → All P paths
    → P (least_from best paths)
unfolding least_from
least_from-All P best [] h hs = h
least_from-All P best (path ∷ paths) h hs =
    elim (Bool-cases (Text.is_lt (String.compare path best))) [
      | inl e ↦ rw e (least_from-All P path paths hs.0 hs.1)
      | inr e ↦ rw e (least_from-All P best paths h hs.1)
    ]

least-All :
    (P : String → Type 0) (paths : List String) (path : String)
    → All P paths
    → least paths ≡ some path
    → P path
unfolding least
least-All P [] path hs e = cc
least-All P (first ∷ paths) path hs e =
    let same : least_from first paths ≡ path = ground arith in
    subst P same (least_from-All P first paths hs.0 hs.1)

-- The stable path of a port is an entry of the directory of links that is resolved to the very file
-- the port is resolved to.
stable_path-LinksTo :
    (files : Files) (port path : String)
    → stable_path files port ≡ some path
    → (target : String) × (entries : List (Option String)) × (files.canonicalize port ≡ some target)
      × (files.by_id ≡ some entries)
      × LinksTo files target entries path
unfolding stable_path least
stable_path-LinksTo files port path e = elim (Option-cases (files.canonicalize port)) [
  | inl n ↦ absurd (ground (arith, n))
  | inr (target, n) ↦ elim (Option-cases files.by_id) [
    | inl m ↦ absurd (ground (arith, n, m))
    | inr (entries, m) ↦
        let found : least (links files target entries) ≡ some path = ground (arith, n, m) in
        (
          target,
          entries,
          n,
          m,
          least-All (LinksTo files target entries) (links files target entries) path
              (links-All files target entries) found,
        )
  ]
]

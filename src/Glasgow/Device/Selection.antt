-- ===== src/Glasgow/Device/Selection.antt =====
-- Which board is selected (src/uart/glasgow/device.rs).
use text.Mathlib.Text
use text.Mathlib.TextEquality.{eq_iff}
use glasgow_tool.Prelude.{
  ◌≡◌, refl, sym, ap, ◌∙◌, ◌↔◌, inl, inr, true, false, String, Option, none, some, List, [], ◌∷◌,
  ◌++◌, arith, Bool-cases, Option-cases,
}
use glasgow_tool.Error.{ok}
use glasgow_tool.Glasgow.Device.{DeviceInfo, is_match, matches, only, select_device}

-- The board has the serial number that is asked for, if one is.
abbrev pub HasSerial : Option String → DeviceInfo → Type 0
HasSerial none d = Unit
HasSerial (some serial) d = d.serial ≡ some serial

has_serial :
    (serial : Option String) (d : DeviceInfo) → is_match serial d ≡ true → HasSerial serial d
unfolding is_match
has_serial none d h = tt
has_serial (some serial) d h = elim (Option-cases d.serial) [
  | inl n ↦ absurd (ground (arith, h, n))
  | inr (own, n) ↦
      let same : Text.◌==◌ own serial ≡ true = ground (arith, h, n) in
      n ∙ ap (λ t. some t) ((eq_iff own serial).0 same)
]

serial_found :
    (serial : Option String) (d : DeviceInfo) → HasSerial serial d → is_match serial d ≡ true
unfolding is_match
serial_found none d h = refl
serial_found (some serial) d h = rw h ((eq_iff serial serial).1 refl)

-- None of these boards has it.
abbrev pub NoneHas : Option String → List DeviceInfo → Type 0
NoneHas serial [] = Unit
NoneHas serial (d ∷ ds) = (¬ HasSerial serial d) × NoneHas serial ds

-- None of these boards matches.
abbrev NoMatch : Option String → List DeviceInfo → Type 0
NoMatch serial [] = Unit
NoMatch serial (d ∷ ds) = (is_match serial d ≡ false) × NoMatch serial ds

no_matches :
    (serial : Option String) (ds : List DeviceInfo) → matches serial ds ≡ [] → NoMatch serial ds
unfolding matches
no_matches serial [] e = tt
no_matches serial (d ∷ ds) e = elim (Bool-cases (is_match serial d)) [
  | inl h ↦ absurd (ground (arith, h))
  | inr h ↦ (h, no_matches serial ds (ground (arith, h)))
]

none_has : (serial : Option String) (ds : List DeviceInfo) → NoMatch serial ds → NoneHas serial ds
none_has serial [] n = tt
none_has serial (d ∷ ds) (n, rest) =
    (λ h. ground (arith, n, serial_found serial d h), none_has serial ds rest)

no_match : (serial : Option String) (ds : List DeviceInfo) → NoneHas serial ds → NoMatch serial ds
no_match serial [] n = tt
no_match serial (d ∷ ds) (n, rest) = (
  elim (Bool-cases (is_match serial d)) [ inl h ↦ absurd (n (has_serial serial d h)) | inr h ↦ h ],
  no_match serial ds rest,
)

-- `d` is one of the boards and has the serial number, and no other one has it.
abbrev pub IsTheOne : Option String → List DeviceInfo → DeviceInfo → Type 0
IsTheOne serial devices d =
    (before : List DeviceInfo) × (after : List DeviceInfo) × (devices ≡ before ++ d ∷ after)
    × HasSerial serial d
    × NoneHas serial before
    × NoneHas serial after

-- `d` stands once among the boards, and no other one matches.
abbrev IsOnlyMatch : Option String → List DeviceInfo → DeviceInfo → Type 0
IsOnlyMatch serial devices d =
    (before : List DeviceInfo) × (after : List DeviceInfo) × (devices ≡ before ++ d ∷ after)
    × (is_match serial d ≡ true)
    × NoMatch serial before
    × NoMatch serial after

one_match :
    (serial : Option String) (ds : List DeviceInfo) (d : DeviceInfo)
    → matches serial ds ≡ d ∷ []
    → IsOnlyMatch serial ds d
unfolding matches
one_match serial [] d e = cc
one_match serial (x ∷ ds) d e = elim (Bool-cases (is_match serial x)) [
  | inl h ↦
      let same : x ≡ d = ground (arith, h) in
      (
        [],
        ds,
        ap (λ k. k ∷ ds) same,
        ap (is_match serial) (sym same) ∙ h,
        tt,
        no_matches serial ds (ground (arith, h)),
      )
  | inr h ↦
      let (before, after, split, found, none_before, none_after) =
        one_match serial ds d (ground (arith, h)) in
      (x ∷ before, after, ap (λ l. x ∷ l) split, found, (h, none_before), none_after)
]

only_ok : (ds : List DeviceInfo) (d : DeviceInfo) → only ds ≡ ok d → ds ≡ d ∷ []
unfolding only
only_ok [] d e = cc
only_ok (x ∷ []) d e = ground arith
only_ok (x ∷ y ∷ ds) d e = cc

matches-append :
    (serial : Option String) (xs ys : List DeviceInfo)
    → matches serial (xs ++ ys) ≡ matches serial xs ++ matches serial ys
unfolding matches
matches-append serial [] ys = refl
matches-append serial (x ∷ xs) ys = ground (arith, matches-append serial xs ys)

matches_nothing :
    (serial : Option String) (ds : List DeviceInfo) → NoMatch serial ds → matches serial ds ≡ []
unfolding matches
matches_nothing serial [] h = refl
matches_nothing serial (d ∷ ds) (n, h) = ground (arith, n, matches_nothing serial ds h)

matches_first :
    (serial : Option String) (ds : List DeviceInfo) (d : DeviceInfo)
    → is_match serial d ≡ true
    → NoMatch serial ds
    → matches serial (d ∷ ds) ≡ d ∷ []
unfolding matches
matches_first serial ds d h n = ground (arith, h, matches_nothing serial ds n)

found_match :
    (devices : List DeviceInfo) (serial : Option String) (d : DeviceInfo)
    → IsOnlyMatch serial devices d
    → matches serial devices ≡ d ∷ []
found_match devices serial d (before, after, split, found, none_before, none_after) =
    ap (matches serial) split
    ∙ matches-append serial before (d ∷ after)
    ∙ ap (λ l. l ++ matches serial (d ∷ after)) (matches_nothing serial before none_before)
    ∙ matches_first serial after d found none_after

-- A board is selected exactly when it is the one board that has the serial number asked for, or the
-- one board there is when none is asked for.
pub select_device_exact :
    (devices : List DeviceInfo) (serial : Option String) (d : DeviceInfo)
    → (select_device devices serial ≡ ok d) ↔ IsTheOne serial devices d
unfolding select_device only
select_device_exact devices serial d = (
  λ e.
      let (before, after, split, found, none_before, none_after) =
        one_match serial devices d (only_ok (matches serial devices) d e) in
      (
        before,
        after,
        split,
        has_serial serial d found,
        none_has serial before none_before,
        none_has serial after none_after,
      ),
  λ (before, after, split, found, none_before, none_after). ap only (
      found_match devices serial d (
        before,
        after,
        split,
        serial_found serial d found,
        no_match serial before none_before,
        no_match serial after none_after,
      )),
)

-- ===== src/C232/Devices/Fits.antt =====
-- What it means for a device to fit the serial number and the path that are asked for
-- (src/uart/c232/vcp.rs).
use text.Mathlib.TextEquality.{eq_iff}
use glasgow_tool.Prelude.{
  ◌≡◌, refl, sym, ap, ◌∙◌, ◌⊎◌, inl, inr, true, false, String, Option, none, some, List, [], ◌∷◌,
  ◌++◌, arith, Bool-cases, Option-cases, All,
}
use glasgow_tool.C232.Paths.{components, path_eq, path_eq_exact, path_eq_of_components}
use glasgow_tool.C232.Devices.{
  VcpDevice, System, same_path, serial_matches, port_matches, is_meant, meant,
}

-- Two paths with the same components, or two names of one file.
abbrev pub NamesFile : System → String → String → Type 0
NamesFile system left right =
    (components left ≡ components right)
    ⊎ ((l : String) × (r : String) × (system.canonicalize left ≡ some l)
        × (system.canonicalize right ≡ some r)
        × (components l ≡ components r))

abbrev pub FitsSerial : Option String → VcpDevice → Type 0
FitsSerial none d = Unit
FitsSerial (some serial) d = d.serial ≡ serial

-- The path names the device's port, or its stable path.
abbrev pub FitsPort : System → Option String → VcpDevice → Type 0
FitsPort system none d = Unit
FitsPort system (some port) d =
    NamesFile system d.port port
    ⊎ ((stable : String) × (d.stable_path ≡ some stable) × NamesFile system stable port)

abbrev pub Fits : System → Option String → Option String → VcpDevice → Type 0
Fits system serial port d = FitsSerial serial d × FitsPort system port d

resolved :
    (system : System) (left right : String)
    → path_eq left right ≡ false
    → same_path system left right ≡ true
    → (l : String) × (r : String) × (system.canonicalize left ≡ some l)
      × (system.canonicalize right ≡ some r)
      × (path_eq l r ≡ true)
unfolding same_path
resolved system left right n h = elim (Option-cases (system.canonicalize left)) [
  | inl a ↦ absurd (ground (arith, n, h, a))
  | inr (l, a) ↦ elim (Option-cases (system.canonicalize right)) [
    | inl b ↦ absurd (ground (arith, n, h, a, b))
    | inr (r, b) ↦ (l, r, a, b, ground (arith, n, h, a, b))
  ]
]

names_file :
    (system : System) (left right : String)
    → same_path system left right ≡ true
    → NamesFile system left right
names_file system left right h = elim (Bool-cases (path_eq left right)) [
  | inl e ↦ inl (path_eq_exact left right e)
  | inr n ↦
      let (l, r, a, b, e) = resolved system left right n h in inr (l, r, a, b, path_eq_exact l r e)
]

file_named :
    (system : System) (left right : String)
    → NamesFile system left right
    → same_path system left right ≡ true
unfolding same_path
file_named system left right (inl e) = rw (path_eq_of_components left right e) refl
file_named system left right (inr (l, r, a, b, e)) =
    ground (arith, a, b, path_eq_of_components l r e)

fits_serial :
    (serial : Option String) (d : VcpDevice) → serial_matches serial d ≡ true → FitsSerial serial d
unfolding serial_matches
fits_serial none d h = tt
fits_serial (some serial) d h = (eq_iff d.serial serial).0 h

serial_fits :
    (serial : Option String) (d : VcpDevice) → FitsSerial serial d → serial_matches serial d ≡ true
unfolding serial_matches
serial_fits none d h = refl
serial_fits (some serial) d h = (eq_iff d.serial serial).1 h

stable_named :
    (system : System) (port : String) (d : VcpDevice)
    → same_path system d.port port ≡ false
    → port_matches system (some port) d ≡ true
    → (stable : String) × (d.stable_path ≡ some stable) × (same_path system stable port ≡ true)
unfolding port_matches
stable_named system port d n h = elim (Option-cases d.stable_path) [
  | inl a ↦ absurd (ground (arith, n, h, a))
  | inr (stable, a) ↦ (stable, a, ground (arith, n, h, a))
]

fits_port :
    (system : System) (port : Option String) (d : VcpDevice)
    → port_matches system port d ≡ true
    → FitsPort system port d
fits_port system none d h = tt
fits_port system (some port) d h = elim (Bool-cases (same_path system d.port port)) [
  | inl e ↦ inl (names_file system d.port port e)
  | inr n ↦
      let (stable, a, e) = stable_named system port d n h in
      inr (stable, a, names_file system stable port e)
]

port_fits :
    (system : System) (port : Option String) (d : VcpDevice)
    → FitsPort system port d
    → port_matches system port d ≡ true
unfolding port_matches
port_fits system none d h = refl
port_fits system (some port) d (inl e) = rw (file_named system d.port port e) refl
port_fits system (some port) d (inr (stable, a, e)) =
    elim (Bool-cases (same_path system d.port port)) [
      | inl k ↦ rw k refl
      | inr k ↦ rw (k, a) (file_named system stable port e)
    ]

pub meant-Fits :
    (system : System) (serial port : Option String) (d : VcpDevice)
    → is_meant system serial port d ≡ true
    → Fits system serial port d
unfolding is_meant
meant-Fits system serial port d h =
    (fits_serial serial d (ground arith), fits_port system port d (ground arith))

is_meant_of_Fits :
    (system : System) (serial port : Option String) (d : VcpDevice)
    → Fits system serial port d
    → is_meant system serial port d ≡ true
unfolding is_meant
is_meant_of_Fits system serial port d (s, p) =
    rw (serial_fits serial d s, port_fits system port d p) refl

-- None of these devices fits.
abbrev pub NoneFits : System → Option String → Option String → List VcpDevice → Type 0
NoneFits system serial port = All (λ d. ¬ Fits system serial port d)

no_fit :
    (system : System) (serial port : Option String) (d : VcpDevice)
    → is_meant system serial port d ≡ false
    → ¬ Fits system serial port d
no_fit system serial port d n =
    λ h. let m = is_meant_of_Fits system serial port d h in absurd (ground (arith, n, m))

nothing_meant :
    (system : System) (serial port : Option String) (ds : List VcpDevice)
    → meant system serial port ds ≡ []
    → NoneFits system serial port ds
unfolding meant
nothing_meant system serial port [] e = tt
nothing_meant system serial port (d ∷ ds) e = elim (Bool-cases (is_meant system serial port d)) [
  | inl h ↦ absurd (ground (arith, h))
  | inr h ↦ (no_fit system serial port d h, nothing_meant system serial port ds (ground (arith, h)))
]

-- `d` is one of the devices and fits, and no other one of them does.
abbrev pub FitsAlone : System → Option String → Option String → List VcpDevice → VcpDevice → Type 0
FitsAlone system serial port devices d =
    (before : List VcpDevice) × (after : List VcpDevice) × (devices ≡ before ++ d ∷ after)
    × Fits system serial port d
    × NoneFits system serial port before
    × NoneFits system serial port after

pub one_meant :
    (system : System) (serial port : Option String) (ds : List VcpDevice) (d : VcpDevice)
    → meant system serial port ds ≡ d ∷ []
    → FitsAlone system serial port ds d
unfolding meant
one_meant system serial port [] d e = cc
one_meant system serial port (x ∷ ds) d e = elim (Bool-cases (is_meant system serial port x)) [
  | inl h ↦
      let same : x ≡ d = ground (arith, h) in
      (
        [],
        ds,
        ap (λ k. k ∷ ds) same,
        meant-Fits system serial port d (ap (is_meant system serial port) (sym same) ∙ h),
        tt,
        nothing_meant system serial port ds (ground (arith, h)),
      )
  | inr h ↦
      let (before, after, split, found, none_before, none_after) =
        one_meant system serial port ds d (ground (arith, h)) in
      (
        x ∷ before,
        after,
        ap (λ l. x ∷ l) split,
        found,
        (no_fit system serial port x h, none_before),
        none_after,
      )
]

-- ===== src/C232/Sysfs/Nearest.antt =====
-- Which directory describes a serial port (`linux_usb_metadata` in src/uart/c232/vcp.rs).
use glasgow_tool.Prelude.{
  ℕ, zero, suc, ◌<◌, ◌≤◌, ◌≡◌, ◌⊎◌, inl, inr, none, some, String, List, [], ◌∷◌, length, drop,
  arith, Option-cases,
}
use glasgow_tool.C232.Devices.{UsbMetadata}
use glasgow_tool.C232.Sysfs.{Files, described, unknown, search_up}

-- Either the metadata stands `k` directories up and in none below, or no directory up to the root
-- has any.
abbrev IsNearest : Files → List String → UsbMetadata → Type 0
IsNearest files directory usb =
    ((k : ℕ) × (k ≤ length directory)
      × (described files (drop k directory) ≡ some usb)
      × ((j : ℕ) → j < k → described files (drop j directory) ≡ none))
    ⊎ ((usb ≡ unknown) × ((j : ℕ) → described files (drop j directory) ≡ none))

module _ (files : Files) where
  below :
      (name : String) (parent : List String) (k : ℕ)
      → described files (name ∷ parent) ≡ none
      → ((j : ℕ) → j < k → described files (drop j parent) ≡ none)
      → (j : ℕ) → j < suc k
      → described files (drop j (name ∷ parent)) ≡ none
  below name parent k here above zero small = here
  below name parent k here above (suc j) small = above j (omega arith)

  nowhere :
      (name : String) (parent : List String)
      → described files (name ∷ parent) ≡ none
      → ((j : ℕ) → described files (drop j parent) ≡ none)
      → (j : ℕ) → described files (drop j (name ∷ parent)) ≡ none
  nowhere name parent here above zero = here
  nowhere name parent here above (suc j) = above j

  nowhere_root : described files [] ≡ none → (j : ℕ) → described files (drop j []) ≡ none
  nowhere_root here zero = here
  nowhere_root here (suc j) = here

  -- The metadata of a port comes from the nearest directory, going up, in which the vendor or the
  -- product can be read, the root included; it is empty only if there is no such directory.
  search_up-IsNearest :
      (directory : List String) → IsNearest files directory (search_up files directory)
  unfolding search_up
  search_up-IsNearest [] = elim (Option-cases (described files [])) [
    | inl n ↦ inr (ground (arith, n), nowhere_root n)
    | inr (usb, n) ↦ inl (zero, omega arith, ground (arith, n), λ j small. absurd (omega arith))
  ]
  search_up-IsNearest (name ∷ parent) = elim (Option-cases (described files (name ∷ parent))) [
    | inr (usb, n) ↦ inl (zero, omega arith, ground (arith, n), λ j small. absurd (omega arith))
    | inl n ↦ elim (search_up-IsNearest parent) [
      | inl (k, fits, found, above) ↦
          inl (suc k, omega arith, ground (arith, n, found), below name parent k n above)
      | inr (same, above) ↦ inr (ground (arith, n, same), nowhere name parent n above)
    ]
  ]

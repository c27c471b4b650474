-- ===== src/C232/Devices/Selection.antt =====
-- From the ports of the system to the selected cable (src/uart/c232/vcp.rs).
use text.Mathlib.TextEquality.{eq_iff}
use glasgow_tool.Prelude.{
  ℕ, none, ◌∙◌, ◌≡◌, sym, ap, subst, ◌⊎◌, inl, inr, true, String, Option, some, List, [], ◌∷◌,
  arith, Bool-cases, Option-cases, All, All-map, sort_by-All,
}
use glasgow_tool.Error.{ok}
use glasgow_tool.C232.Devices.Fits.{FitsAlone, one_meant}
use glasgow_tool.C232.Devices.{
  UsbMetadata, usb_field, or_else, is_number, is_text, VcpDevice, SerialPortInfo, System, identity,
  is_cable, identify, identified, sorted, dedup_after, deduped, list_devices, same_device, is_meant,
  meant, the_one, select_device, serial_matches, device_order,
}

-- What is known of the port: what serialport says, and else what sysfs does.
abbrev pub Known : {A : Type 0} → (UsbMetadata → Option A) → System → SerialPortInfo → A → Type 0
Known field system p a =
    (usb_field field p.usb ≡ some a)
    ⊎ (usb_field field p.usb ≡ none) × (field (system.usb_metadata p.port_name) ≡ some a)

-- The port is a C232HD cable by its identity, and the device carries its name, its serial number and
-- its stable path.
pub record IsCable (system : System) (p : SerialPortInfo) (d : VcpDevice) : Type 0 where
  pub vendor : Known (λ u. u.vid) system p 0x0403
  pub product_id : Known (λ u. u.pid) system p 0x6014
  pub product : Known (λ u. u.product) system p "C232HD-DDHSP-0"
  pub serial : Known (λ u. u.serial) system p d.serial
  pub port : d.port ≡ p.port_name
  pub stable : d.stable_path ≡ system.stable_path p.port_name

-- One of these ports is this device, and is a C232HD cable.
abbrev pub IsFrom : System → List SerialPortInfo → VcpDevice → Type 0
IsFrom system [] d = ⊥
IsFrom system (p ∷ ps) d = IsCable system p d ⊎ IsFrom system ps d

known :
    {A : Type 0} (field : UsbMetadata → Option A) (system : System) (p : SerialPortInfo) (a : A)
    → or_else (usb_field field p.usb) (field (system.usb_metadata p.port_name)) ≡ some a
    → Known field system p a
known field system p a e = elim (Option-cases (usb_field field p.usb)) [
  | inl n ↦ inr (n, sym (ap (λ o. or_else o (field (system.usb_metadata p.port_name))) n) ∙ e)
  | inr (b, n) ↦ inl (n ∙ sym (ap (λ o. or_else o (field (system.usb_metadata p.port_name))) n) ∙ e)
]

number_is : (n : ℕ) (o : Option ℕ) → is_number n o ≡ true → o ≡ some n
number_is n none h = cc
number_is n (some m) h = ap (λ k. some k) (ground arith)

text_is : (s : String) (o : Option String) → is_text s o ≡ true → o ≡ some s
text_is s none h = cc
text_is s (some t) h = ap (λ k. some k) ((eq_iff t s).0 h)

cable_fields :
    (u : UsbMetadata)
    → is_cable u ≡ true
    → (u.vid ≡ some 0x0403) × (u.pid ≡ some 0x6014) × (u.product ≡ some "C232HD-DDHSP-0")
unfolding is_cable
cable_fields u h = (
  number_is 0x0403 u.vid (ground arith),
  number_is 0x6014 u.pid (ground arith),
  text_is "C232HD-DDHSP-0" u.product (ground arith),
)

identified_fields :
    (system : System) (p : SerialPortInfo) (d : VcpDevice)
    → identify system p ≡ some d
    → (is_cable (identity system p) ≡ true)
      × (d.port ≡ p.port_name)
      × ((identity system p).serial ≡ some d.serial)
      × (d.stable_path ≡ system.stable_path p.port_name)
unfolding identify
identified_fields system p d e = ground arith

identify-IsCable :
    (system : System) (p : SerialPortInfo) (d : VcpDevice)
    → identify system p ≡ some d
    → IsCable system p d
unfolding identity
identify-IsCable system p d e =
    let (cable, port, serial, stable) = identified_fields system p d e in
    let (vendor, product_id, product) = cable_fields (identity system p) cable in
    record {
      vendor = known (λ u. u.vid) system p 0x0403 vendor;
      product_id = known (λ u. u.pid) system p 0x6014 product_id;
      product = known (λ u. u.product) system p "C232HD-DDHSP-0" product;
      serial = known (λ u. u.serial) system p d.serial serial;
      port = port;
      stable = stable;
    }

identified-All :
    (system : System) (ps : List SerialPortInfo) → All (IsFrom system ps) (identified system ps)
unfolding identified
identified-All system [] = tt
identified-All system (p ∷ ps) =
    let more =
      All-map {P = IsFrom system ps} {Q = IsFrom system (p ∷ ps)} (λ d h. inr h)
        (identified system ps) (identified-All system ps) in
    elim (Option-cases (identify system p)) [
      | inl n ↦
          let e : identified system (p ∷ ps) ≡ identified system ps = ground (arith, n) in
          subst (All (IsFrom system (p ∷ ps))) (sym e) more
      | inr (d, n) ↦
          let e : identified system (p ∷ ps) ≡ d ∷ identified system ps = ground (arith, n) in
          subst (All (IsFrom system (p ∷ ps))) (sym e) (inl (identify-IsCable system p d n), more)
    ]

module _ (P : VcpDevice → Type 0) where
  dedup_after-All :
      (last : VcpDevice) (ds : List VcpDevice) → All P ds → All P (dedup_after last ds)
  unfolding dedup_after
  dedup_after-All last [] h = tt
  dedup_after-All last (d ∷ ds) h = elim (Bool-cases (same_device d last)) [
    | inl e ↦ rw e (dedup_after-All last ds h.1)
    | inr e ↦ rw e (h.0, dedup_after-All d ds h.1)
  ]

  deduped-All : (ds : List VcpDevice) → All P ds → All P (deduped ds)
  unfolding deduped
  deduped-All [] h = tt
  deduped-All (d ∷ ds) h = (h.0, dedup_after-All d ds h.1)

  meant-All :
      (system : System) (serial port : Option String) (ds : List VcpDevice)
      → All P ds
      → All (λ d. P d × (is_meant system serial port d ≡ true)) (meant system serial port ds)
  unfolding meant
  meant-All system serial port [] h = tt
  meant-All system serial port (d ∷ ds) h = elim (Bool-cases (is_meant system serial port d)) [
    | inl e ↦ rw e ((h.0, e), meant-All system serial port ds h.1)
    | inr e ↦ rw e (meant-All system serial port ds h.1)
  ]

  the_one-All :
      (serial port : Option String) (ds : List VcpDevice) (d : VcpDevice)
      → All P ds
      → the_one serial port ds ≡ ok d
      → (ds ≡ d ∷ []) × P d
  unfolding the_one
  the_one-All serial port [] d h e = cc
  the_one-All serial port (x ∷ []) d h e =
      let same : x ≡ d = ground arith in (ap (λ y. y ∷ []) same, subst P same h.0)
  the_one-All serial port (x ∷ y ∷ ds) d h e = cc

-- The device that is selected from the list stands for a port of the system that is a C232HD cable,
-- by its vendor, product and product name, with that serial number and stable path; it has the serial
-- number that was asked for, and its port or its stable path is the one that was asked for, by its
-- components or as a name of the same file; and no other device of the list fits.
pub selected-IsFrom :
    (system : System) (ports : List SerialPortInfo) (devices : List VcpDevice)
    (serial port : Option String) (d : VcpDevice)
    → list_devices system (ok ports) ≡ ok devices
    → select_device system devices serial port ≡ ok d
    → IsFrom system ports d × FitsAlone system serial port devices d
unfolding list_devices select_device sorted
selected-IsFrom system ports devices serial port d listed chosen =
    let From = IsFrom system ports in
    let same : deduped (sorted (identified system ports)) ≡ devices = ground arith in
    let ordered = sort_by-All From device_order (identified system ports) in
    let every = deduped-All From _ (ordered (identified-All system ports)) in
    let fitting = meant-All From system serial port devices (subst (All From) same every) in
    let (alone, found) =
      the_one-All (λ e. From e × (is_meant system serial port e ≡ true)) serial port
        (meant system serial port devices) d fitting chosen in
    (found.0, one_meant system serial port devices d alone)

everything : (devices : List VcpDevice) → All (λ _. Unit) devices
everything [] = tt
everything (d ∷ ds) = (tt, everything ds)

-- The selected device has the serial number that was asked for.
pub selected_serial :
    (system : System) (devices : List VcpDevice) (serial port : Option String) (d : VcpDevice)
    → select_device system devices serial port ≡ ok d
    → serial_matches serial d ≡ true
unfolding select_device is_meant
selected_serial system devices serial port d chosen =
    let (alone, found) =
      the_one-All (λ e. Unit × (is_meant system serial port e ≡ true)) serial port
        (meant system serial port devices) d
        (meant-All (λ _. Unit) system serial port devices (everything devices)) chosen in
    ground (arith, found.1)

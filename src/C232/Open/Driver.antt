-- ===== src/C232/Open/Driver.antt =====
-- The kernel driver of the cable (src/uart/c232/usb.rs): detached while the transport is open.
use glasgow_tool.Prelude.{
  ℕ, zero, suc, ◌≡◌, refl, sym, subst, ◌∙◌, ◌⊎◌, inl, inr, Bool, true, false, String, Option, arith,
  Bool-cases,
}
use glasgow_tool.Error.{Error, Result, ok, err, Result-cases}
use glasgow_tool.Io.{call}
use glasgow_tool.Io.Keeps.{Keeps, keeps_rules, Keeps-bind, after-bind, bind-cases}
use glasgow_tool.Session.{from_millis}
use glasgow_tool.C232.Usb.{UsbRx, UsbTransport}
use glasgow_tool.C232.Discovery.{UsbDeviceInfo}
use glasgow_tool.C232.Open.{
  UsbBus, UsbError, was_detached, list_devices, select_device, control_out, configure_ftdi,
  driver_error, fill, usb_rx_new, setup, reattach_first, detach_driver, keep_or_restore,
  find_endpoints, take_over, open_selected, usb_open, restore_driver, usb_drop, usb_transfer_count,
}

-- What nusb documents of the driver: a call that succeeds attaches or detaches it, and no other call
-- changes that.
pub record DriverLaws {W : Type 0} (bus : UsbBus W) : Type 0 where
  pub attached : W → Bool
  pub attach_ok : (w w' : W) → bus.attach_kernel_driver w ≡ (ok tt, w') → attached w' ≡ true
  pub detach_ok : (w w' : W) → bus.detach_kernel_driver w ≡ (ok tt, w') → attached w' ≡ false
  pub detach_err :
      (w w' : W) (e : UsbError)
      → bus.detach_kernel_driver w ≡ (err e, w')
      → attached w' ≡ attached w
  pub keeps-list_devices : Keeps attached bus.list_devices
  pub keeps-open_device : (d : UsbDeviceInfo) → Keeps attached (bus.open_device d)
  pub keeps-claim_interface : Keeps attached bus.claim_interface
  pub keeps-control_out : (r v i : ℕ) → Keeps attached (bus.control_out r v i)
  pub keeps-in_endpoint : (a : ℕ) → Keeps attached (bus.in_endpoint a)
  pub keeps-out_endpoint : (a : ℕ) → Keeps attached (bus.out_endpoint a)
  pub keeps-submit_in : (w : W) → attached (bus.submit_in w) ≡ attached w

module _ {W : Type 0} (bus : UsbBus W) (law : DriverLaws bus) where
  select_device-Keeps : (serial : Option String) → Keeps law.attached (select_device bus serial)
  unfolding select_device list_devices
  select_device-Keeps serial = search (keeps_rules, law.keeps-list_devices)

  control_out-Keeps : (r v i : ℕ) → Keeps law.attached (control_out bus r v i)
  unfolding control_out
  control_out-Keeps r v i = search (keeps_rules, law.keeps-control_out)

  configure_ftdi-Keeps : (baud : ℕ) → Keeps law.attached (configure_ftdi bus baud)
  unfolding configure_ftdi
  configure_ftdi-Keeps baud = search (keeps_rules, control_out-Keeps) depth 12

  fill-Keeps : (n : ℕ) (w : W) → law.attached (fill bus n w) ≡ law.attached w
  unfolding fill
  fill-Keeps zero w = refl
  fill-Keeps (suc n) w = ground (arith, fill-Keeps n (bus.submit_in w), law.keeps-submit_in w)

  usb_rx_new-Keeps : (n : ℕ) → Keeps law.attached (usb_rx_new bus n)
  unfolding usb_rx_new
  usb_rx_new-Keeps n = record { at = fill-Keeps usb_transfer_count }

  setup-Keeps : (rx tx packet baud : ℕ) → Keeps law.attached (setup bus rx tx packet baud)
  unfolding setup
  setup-Keeps rx tx packet baud =
      Keeps-bind _ _ (search (keeps_rules, law.keeps-claim_interface)) (λ _.
        Keeps-bind _ _ (configure_ftdi-Keeps baud) (λ b.
          Keeps-bind _ _ (search (keeps_rules, law.keeps-in_endpoint)) (λ _.
            Keeps-bind _ _ (search (keeps_rules, law.keeps-out_endpoint))
              (λ _. search (keeps_rules, usb_rx_new-Keeps)))))

  -- The last call refused to attach the driver.
  abbrev pub IsRefused : W → Type 0
  IsRefused w' = (v : W) × (e : UsbError) × (bus.attach_kernel_driver v ≡ (err e, w'))

  -- The driver is detached after a success, and attached after a failure, unless the system refused.
  abbrev pub GivenBack : {A : Type 0} → Result Error A × W → Type 0
  GivenBack (ok a, w') = law.attached w' ≡ false
  GivenBack (err error, w') = (law.attached w' ≡ true) ⊎ IsRefused w'

  attach-cases :
      (w : W)
      → (law.attached (bus.attach_kernel_driver w).1 ≡ true)
        ⊎ IsRefused (bus.attach_kernel_driver w).1
  attach-cases w = elim (Result-cases (bus.attach_kernel_driver w).0) [
    | inl (e, p) ↦ inr (w, e, ground (arith, p))
    | inr (a, p) ↦ inl (law.attach_ok w _ (ground (arith, p)))
  ]

  keep_or_restore-GivenBack :
      (selected : UsbDeviceInfo) (baud : ℕ) (r : Result Error (UsbRx × ℕ) × W)
      → law.attached r.1 ≡ false
      → GivenBack (keep_or_restore bus selected baud r)
  unfolding keep_or_restore
  keep_or_restore-GivenBack selected baud (ok v, w) h = h
  keep_or_restore-GivenBack selected baud (err e, w) h = attach-cases w

  call_attach-GivenBack :
      (f : UsbError → Error) (w : W)
      → ((e : Error)
          → call f bus.attach_kernel_driver w ≡ (err e, (call f bus.attach_kernel_driver w).1)
          → IsRefused (call f bus.attach_kernel_driver w).1)
        × ((a : Unit)
            → call f bus.attach_kernel_driver w ≡ (ok a, (call f bus.attach_kernel_driver w).1)
            → law.attached (call f bus.attach_kernel_driver w).1 ≡ true)
  unfolding call
  call_attach-GivenBack f w = elim (Result-cases (bus.attach_kernel_driver w).0) [
    | inl (e, p) ↦ ((λ _ _. (w, e, ground (arith, p))), λ a q. absurd (ground (arith, p, q)))
    | inr (a, p) ↦
        ((λ e q. absurd (ground (arith, p, q))), λ _ _. law.attach_ok w _ (ground (arith, p)))
  ]

  call_detach-GivenBack :
      (f : UsbError → Error) (w : W)
      → law.attached w ≡ true
      → GivenBack (call f bus.detach_kernel_driver w)
  unfolding call
  call_detach-GivenBack f w h = elim (Result-cases (bus.detach_kernel_driver w).0) [
    | inl (e, p) ↦ rw (p, GivenBack) (inl (law.detach_err w _ e (ground (arith, p)) ∙ h))
    | inr (a, p) ↦ rw (p, GivenBack) (law.detach_ok w _ (ground (arith, p)))
  ]

  reattach_first-GivenBack :
      (selected : UsbDeviceInfo) (w : W) → GivenBack (reattach_first bus selected w)
  unfolding reattach_first
  reattach_first-GivenBack selected w =
      let restore = driver_error "restore the VCP driver" selected in
      let detach = driver_error "detach the restored VCP driver" selected in
      let attaching = call_attach-GivenBack restore w in
      elim (bind-cases (call restore bus.attach_kernel_driver)
        (λ _. call detach bus.detach_kernel_driver) w) [
          | inl (e, p, q) ↦ subst GivenBack (sym q) (inr (attaching.0 e p))
          | inr (a, p, q) ↦
              subst GivenBack (sym q) (call_detach-GivenBack detach _ (attaching.1 a p))
        ]

  detach_driver-GivenBack :
      (selected : UsbDeviceInfo) (w : W)
      → law.attached w ≡ true
      → GivenBack (detach_driver bus selected w)
  unfolding detach_driver
  detach_driver-GivenBack selected w h =
      let w1 = (bus.detach_kernel_driver w).1 in
      elim (Result-cases (bus.detach_kernel_driver w).0) [
        | inr (a, p) ↦
            let e : detach_driver bus selected w ≡ (ok tt, w1) = ground (arith, p) in
            subst GivenBack (sym e) (law.detach_ok w _ (ground (arith, p)))
        | inl (u, p) ↦
            let kept = law.detach_err w w1 u (ground (arith, p)) ∙ h in
            elim (Bool-cases (was_detached bus.is_linux u)) [
              | inl t ↦
                  let e : detach_driver bus selected w ≡ reattach_first bus selected w1 =
                    ground (arith, p, t) in
                  subst GivenBack (sym e) (reattach_first-GivenBack selected w1)
              | inr t ↦
                  let failed = driver_error "detach the VCP driver" selected u in
                  let e : detach_driver bus selected w ≡ (err failed, w1) = ground (arith, p, t) in
                  subst GivenBack (sym e) (inl kept)
            ]
      ]

  take_over-GivenBack :
      (selected : UsbDeviceInfo) (baud : ℕ) (found : ℕ × ℕ × ℕ) (w : W)
      → law.attached w ≡ true
      → GivenBack (take_over bus selected baud found w)
  unfolding take_over
  take_over-GivenBack selected baud (rx, tx, packet) w h =
      let taken = detach_driver-GivenBack selected w h in
      elim (bind-cases (detach_driver bus selected)
        (λ _ v. keep_or_restore bus selected baud (setup bus rx tx packet baud v)) w) [
          | inl (e, p, q) ↦ subst GivenBack (sym q) (subst GivenBack p taken)
          | inr (a, p, q) ↦
              let w1 = (detach_driver bus selected w).1 in
              subst GivenBack (sym q) (
                keep_or_restore-GivenBack selected baud (setup bus rx tx packet baud w1)
                  ((setup-Keeps rx tx packet baud).at w1 ∙ subst GivenBack p taken))
        ]

  find_endpoints-Keeps : Keeps law.attached (find_endpoints bus)
  unfolding find_endpoints
  find_endpoints-Keeps = record { at = λ w. refl }

  open_selected-GivenBack :
      (selected : UsbDeviceInfo) (baud : ℕ) (w : W)
      → law.attached w ≡ true
      → GivenBack (open_selected bus baud selected w)
  unfolding open_selected
  open_selected-GivenBack selected baud =
      after-bind law.attached true GivenBack _ _ (search (keeps_rules, law.keeps-open_device))
        (λ e w h. inl h)
        (λ _.
          after-bind law.attached true GivenBack _ _ find_endpoints-Keeps (λ e w h. inl h)
            (take_over-GivenBack selected baud))

  -- Opening the cable detaches the kernel's driver only for a transport that is open: after any failure
  -- the driver is attached as it was before, unless the system refused to attach it.
  pub usb_open-GivenBack :
      (serial : Option String) (baud : ℕ) (w : W)
      → law.attached w ≡ true
      → GivenBack (usb_open bus serial baud w)
  unfolding usb_open
  usb_open-GivenBack serial baud =
      after-bind law.attached true GivenBack _ _ (select_device-Keeps serial) (λ e w h. inl h)
        (λ selected. open_selected-GivenBack selected baud)

  -- The last try to attach the driver was refused.
  abbrev pub IsRefusedAtLast : W → Type 0
  IsRefusedAtLast w' =
      (v : W) × (e : UsbError) × (v' : W) × (bus.attach_kernel_driver v ≡ (err e, v'))
      × (bus.sleep (from_millis 10) v' ≡ w')

  abbrev Restored : W → Type 0
  Restored w' = (law.attached w' ≡ true) ⊎ IsRefusedAtLast w'

  restore_step :
      (tries : ℕ) (w : W)
      → ((e : UsbError)
          → (bus.attach_kernel_driver w).0 ≡ err e
          → Restored (
              restore_driver bus tries (bus.sleep (from_millis 10) (bus.attach_kernel_driver w).1)))
      → Restored (restore_driver bus (suc tries) w)
  unfolding restore_driver
  restore_step tries w again =
      let w1 = (bus.attach_kernel_driver w).1 in
      elim (Result-cases (bus.attach_kernel_driver w).0) [
        | inr (a, p) ↦
            let q : restore_driver bus (suc tries) w ≡ w1 = ground (arith, p) in
            subst Restored (sym q) (inl (law.attach_ok w w1 (ground (arith, p))))
        | inl (e, p) ↦
            let w2 = bus.sleep (from_millis 10) w1 in
            let q : restore_driver bus (suc tries) w ≡ restore_driver bus tries w2 =
              ground (arith, p) in
            subst Restored (sym q) (again e p)
      ]

  restore_driver-Restored : (tries : ℕ) (w : W) → Restored (restore_driver bus (suc tries) w)
  unfolding restore_driver
  restore_driver-Restored zero w =
      restore_step zero w
        (λ e p. inr (w, e, (bus.attach_kernel_driver w).1, ground (arith, p), refl))
  restore_driver-Restored (suc tries) w =
      restore_step (suc tries) w (λ e p. restore_driver-Restored tries _)

  -- A transport that is dropped attaches the driver, unless the system refused the last of ten tries.
  pub usb_drop-Attached :
      (usb : UsbTransport) (w : W)
      → usb.driver_detached ≡ true
      → (law.attached (usb_drop bus usb w) ≡ true) ⊎ IsRefusedAtLast (usb_drop bus usb w)
  unfolding usb_drop
  usb_drop-Attached usb w h = rw h (restore_driver-Restored 9 _)

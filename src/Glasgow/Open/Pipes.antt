-- ===== src/Glasgow/Open/Pipes.antt =====
-- The guard of the set-up (src/uart/glasgow/transport.rs): what a failure leaves of the UART pipes.
use glasgow_tool.Prelude.{
  ℕ, ◌≡◌, refl, sym, subst, ◌∙◌, ◌⊎◌, inl, inr, true, false, String, none, some, arith,
  Option-cases, if◌then◌else◌,
}
use glasgow_tool.Error.{Error, Result, ok, err, Result-cases}
use glasgow_tool.Act.{Act}
use glasgow_tool.Act.Triple.{Triple, Triple-bind, Triple-pure, Triple-give}
use glasgow_tool.Glasgow.Baud.{baud_divisor}
use glasgow_tool.Glasgow.Management.{Management, set_fixed_profile}
use glasgow_tool.Glasgow.Resource.{ResourceManifest, PipeEndpoint}
use glasgow_tool.Glasgow.Open.{
  Device, SetupCleanup, Guarded, call_device, managed, note, enable_pipes, open_endpoints,
  configure, set_up, reset_interface, drop_guard, open_pipes, new_guard,
}

-- What USB says of alternate settings: a request that is accepted selects the setting of its
-- interface, and no request changes that of another; a claim changes none.
pub record AlternateLaws {W : Type 0} (device : Device W) : Type 0 where
  pub alternate : ℕ → W → ℕ
  pub set_ok :
      (i a : ℕ) (w w' : W) → device.set_alt_setting i a w ≡ (ok tt, w') → alternate i w' ≡ a
  pub set_only :
      (i a j : ℕ) (w : W)
      → (alternate j (device.set_alt_setting i a w).1 ≡ alternate j w)
        ⊎ (alternate j (device.set_alt_setting i a w).1 ≡ a)
  pub claim_keeps : (i j : ℕ) (w : W) → alternate j (device.claim_interface i w).1 ≡ alternate j w

module _ {W : Type 0} (device : Device W) (law : AlternateLaws device) (rx tx : PipeEndpoint) where
  -- Nothing is claimed yet.
  abbrev Fresh : Guarded device → Type 0
  Fresh s =
      (s.cleanup.armed ≡ true)
      × (s.cleanup.vio_enabled ≡ false)
      × (s.cleanup.rx_interface ≡ none)
      × (s.cleanup.tx_interface ≡ none)
      × (law.alternate rx.interface s.manager.world ≡ 0)
      × (law.alternate tx.interface s.manager.world ≡ 0)

  -- The RX interface is.
  abbrev Half : Guarded device → Type 0
  Half s =
      (s.cleanup.armed ≡ true)
      × (s.cleanup.vio_enabled ≡ false)
      × (s.cleanup.rx_interface ≡ some rx.interface)
      × (s.cleanup.tx_interface ≡ none)
      × (law.alternate tx.interface s.manager.world ≡ 0)

  -- Both are.
  abbrev Whole : Guarded device → Type 0
  Whole s =
      (s.cleanup.armed ≡ true)
      × (s.cleanup.rx_interface ≡ some rx.interface)
      × (s.cleanup.tx_interface ≡ some tx.interface)

  abbrev Done : Guarded device → Type 0
  Done s = s.cleanup.armed ≡ false

  abbrev Stopped : Guarded device → Type 0
  Stopped s = Fresh s ⊎ Half s ⊎ Whole s

  managed-Whole :
      {A : Type 0} (m : Act (Management W) A) → Triple Stopped Whole Whole (managed device m)
  unfolding managed
  managed-Whole m = record {
    succeeds = λ s p a s' e. ground (arith, e, p);
    fails = λ s p x s' e. inr (inr (ground (arith, e, p)));
  }

  -- Where a claim ends.
  claim_end :
      (category : String → Error) (i : ℕ) (s s' : Guarded device) (r : Result Error Unit)
      → managed device (call_device category (device.claim_interface i)) s ≡ some (r, s')
      → (s'.cleanup ≡ s.cleanup)
        × ((j : ℕ) → law.alternate j s'.manager.world ≡ law.alternate j s.manager.world)
  unfolding managed call_device
  claim_end category i s s' r e = elim (Result-cases (device.claim_interface i s.manager.world).0) [
    | inl (x, p) ↦
        (ground (arith, e, p), λ j. ground (arith, e, p, law.claim_keeps i j s.manager.world))
    | inr (a, p) ↦
        (ground (arith, e, p), λ j. ground (arith, e, p, law.claim_keeps i j s.manager.world))
  ]

  claim-Fresh :
      (category : String → Error) (i : ℕ)
      → Triple Stopped Fresh Fresh
          (managed device (call_device category (device.claim_interface i)))
  claim-Fresh category i = record {
    succeeds = λ s p a s' e.
        let (same, alternates) = claim_end category i s s' (ok a) e in
        ground (arith, same, alternates rx.interface, alternates tx.interface, p);
    fails = λ s p x s' e.
        let (same, alternates) = claim_end category i s s' (err x) e in
        inl (ground (arith, same, alternates rx.interface, alternates tx.interface, p));
  }

  claim-Half :
      (category : String → Error) (i : ℕ)
      → Triple Stopped Half Half (managed device (call_device category (device.claim_interface i)))
  claim-Half category i = record {
    succeeds = λ s p a s' e.
        let (same, alternates) = claim_end category i s s' (ok a) e in
        ground (arith, same, alternates tx.interface, p);
    fails = λ s p x s' e.
        let (same, alternates) = claim_end category i s s' (err x) e in
        inr (inl (ground (arith, same, alternates tx.interface, p)));
  }

  note-Triple :
      {P Q : Guarded device → Type 0} (f : SetupCleanup → SetupCleanup)
      → ((s : Guarded device) → P s → Q (record s { cleanup = f s.cleanup }))
      → Triple Stopped P Q (note device f)
  unfolding note
  note-Triple {Q = Q} f imp = record {
    succeeds = λ s p a s' e.
        let same : record s { cleanup = f s.cleanup } ≡ s' = ground (arith, e) in
        subst Q same (imp s p);
    fails = λ s p x s' e. cc;
  }

  enable_pipes-Triple : Triple Stopped Fresh Whole (enable_pipes device rx tx)
  unfolding enable_pipes
  enable_pipes-Triple = Triple-bind Fresh _ _ (claim-Fresh _ rx.interface) (λ _.
      Triple-bind Half _ _
        (note-Triple {P = Fresh} {Q = Half} _ (λ s p. (p.0, p.1, refl, p.3, p.5)))
        (λ _. Triple-bind Half _ _ (claim-Half _ tx.interface) (λ _.
          Triple-bind Whole _ _ (note-Triple {P = Half} {Q = Whole} _ (λ s p. (p.0, p.2, refl)))
            (λ _. Triple-bind Whole _ _ (managed-Whole _) (λ _. managed-Whole _)))))

  Whole-Stopped : (s : Guarded device) → Whole s → Stopped s
  Whole-Stopped s p = inr (inr p)

  open_endpoints-Triple : Triple Stopped Whole Whole (open_endpoints device rx tx)
  unfolding open_endpoints
  open_endpoints-Triple =
      Triple-bind Whole _ _ (managed-Whole _)
        (λ _. Triple-bind Whole _ _ (managed-Whole _) (λ _. Triple-give _ Whole-Stopped))

  configure-Triple :
      (manifest : ResourceManifest) (baud : ℕ)
      → Triple Stopped Whole Done (configure device manifest baud)
  unfolding configure
  configure-Triple manifest baud =
      Triple-bind Whole _ _ (Triple-give (baud_divisor baud) Whole-Stopped) (λ (divisor, actual).
        Triple-bind Whole _ _ (managed-Whole _) (λ _. Triple-bind Whole _ _ (managed-Whole _) (λ _.
          Triple-bind Whole _ _ (note-Triple {P = Whole} {Q = Whole} _ (λ s p. p)) (λ _.
            Triple-bind Whole _ _ (managed-Whole _) (λ _.
              Triple-bind Whole _ _ (managed-Whole _) (λ _.
                Triple-bind Done _ _ (note-Triple {P = Whole} {Q = Done} _ (λ s p. refl))
                  (λ _. Triple-pure _)))))))

  -- The world `w` is the one in which the device refused to go back to the first alternate setting
  -- of this interface, or the one after the request for the TX interface that followed.
  abbrev pub IsRefused : ℕ → W → Type 0
  IsRefused i w =
      (v : W) × (v' : W) × (x : String) × (device.set_alt_setting i 0 v ≡ (err x, v'))
      × ((w ≡ v') ⊎ (w ≡ (device.set_alt_setting tx.interface 0 v').1))

  -- The interface has its first alternate setting, in which the pipe is off.
  abbrev pub IsReset : ℕ → W → Type 0
  IsReset i w = (law.alternate i w ≡ 0) ⊎ IsRefused i w

  stays_off :
      (i k : ℕ) (w : W)
      → law.alternate i w ≡ 0
      → law.alternate i (reset_interface device (some k) w) ≡ 0
  unfolding reset_interface
  stays_off i k w zero_before = elim (law.set_only k 0 i w) [
    | inl same ↦ same ∙ zero_before
    | inr now_zero ↦ now_zero
  ]

  IsReset-own : (i : ℕ) (w : W) → IsReset i (reset_interface device (some i) w)
  unfolding reset_interface
  IsReset-own i w = elim (Result-cases (device.set_alt_setting i 0 w).0) [
    | inl (x, p) ↦ inr (w, (device.set_alt_setting i 0 w).1, x, ground (arith, p), inl refl)
    | inr (a, p) ↦ inl (law.set_ok i 0 w _ (ground (arith, p)))
  ]

  -- Both interfaces in a row.
  IsReset-first :
      (w : W)
      → IsReset rx.interface (
          reset_interface device (some tx.interface) (reset_interface device (some rx.interface) w))
  unfolding reset_interface
  IsReset-first w = elim (Result-cases (device.set_alt_setting rx.interface 0 w).0) [
    | inl (x, p) ↦
        inr (w, (device.set_alt_setting rx.interface 0 w).1, x, ground (arith, p), inr refl)
    | inr (a, p) ↦
        inl (
          stays_off rx.interface tx.interface _ (law.set_ok rx.interface 0 w _ (ground (arith, p))))
  ]

  abbrev AllReset : W → Type 0
  AllReset w = IsReset rx.interface w × IsReset tx.interface w

  drop_Fresh : (s : Guarded device) → Fresh s → AllReset (drop_guard device s).world
  unfolding drop_guard reset_interface
  drop_Fresh s p =
      let e : (drop_guard device s).world ≡ s.manager.world = ground (arith, p) in
      subst AllReset (sym e) (inl p.4, inl p.5)

  drop_Half : (s : Guarded device) → Half s → AllReset (drop_guard device s).world
  unfolding drop_guard reset_interface
  drop_Half s p =
      let w = s.manager.world in
      let e : (drop_guard device s).world ≡ reset_interface device (some rx.interface) w =
        ground (arith, p) in
      subst AllReset (sym e)
        (IsReset-own rx.interface w, inl (stays_off tx.interface rx.interface w p.4))

  drop_Whole : (s : Guarded device) → Whole s → AllReset (drop_guard device s).world
  unfolding drop_guard
  drop_Whole s p =
      let c = s.cleanup in
      let w =
        (if c.vio_enabled
          then (set_fixed_profile device.link false s.manager).1
          else s.manager).world in
      let w1 = reset_interface device (some rx.interface) w in
      let e : (drop_guard device s).world ≡ reset_interface device (some tx.interface) w1 =
        ground (arith, p) in
      subst AllReset (sym e) (IsReset-first w, IsReset-own tx.interface w1)

  drop_Stopped : (s : Guarded device) → Stopped s → AllReset (drop_guard device s).world
  drop_Stopped s (inl p) = drop_Fresh s p
  drop_Stopped s (inr (inl p)) = drop_Half s p
  drop_Stopped s (inr (inr p)) = drop_Whole s p

module _ {W : Type 0} (device : Device W) (law : AlternateLaws device) (manifest : ResourceManifest)
    (baud : ℕ) where
  set_up-Triple :
      Triple
        (Stopped device law manifest.pipe.rx manifest.pipe.tx)
        (Fresh device law manifest.pipe.rx manifest.pipe.tx)
        (Done device law manifest.pipe.rx manifest.pipe.tx)
        (set_up device manifest baud)
  unfolding set_up
  set_up-Triple =
      let rx = manifest.pipe.rx in
      let tx = manifest.pipe.tx in
      Triple-bind (Whole device law rx tx) _ _ (enable_pipes-Triple device law rx tx) (λ _.
        Triple-bind (Whole device law rx tx) _ _ (open_endpoints-Triple device law rx tx)
          (λ _. configure-Triple device law rx tx manifest baud))

  -- A set-up that fails, at whatever step, leaves both UART pipes off, in their first alternate
  -- setting, as they were before, unless the device refused to go back to it: then the world at the
  -- end is the one of that refusal, or of the request for the TX interface right after it.
  pub open_pipes-IsReset :
      (m m' : Management W) (x : Error)
      → law.alternate manifest.pipe.rx.interface m.world ≡ 0
      → law.alternate manifest.pipe.tx.interface m.world ≡ 0
      → open_pipes device manifest baud m ≡ some (err x, m')
      → IsReset device law manifest.pipe.rx manifest.pipe.tx manifest.pipe.rx.interface m'.world
        × IsReset device law manifest.pipe.rx manifest.pipe.tx manifest.pipe.tx.interface m'.world
  unfolding open_pipes
  open_pipes-IsReset m m' x off_rx off_tx e =
      let start : Guarded device = record { cleanup = new_guard device; manager = m } in
      elim (Option-cases (set_up device manifest baud start)) [
        | inl none_left ↦ absurd (ground (arith, none_left))
        | inr ((r, s), p) ↦
            let failed : set_up device manifest baud start ≡ some (err x, s) = ground (arith, p) in
            let ended : drop_guard device s ≡ m' = ground (arith, p) in
            let stopped =
              set_up-Triple.fails start (refl, refl, refl, refl, off_rx, off_tx) x s failed in
            subst (λ v. AllReset device law manifest.pipe.rx manifest.pipe.tx v.world) ended
              (drop_Stopped device law manifest.pipe.rx manifest.pipe.tx s stopped)
      ]

-- ===== src/Glasgow/Open/Ends.antt =====
-- The two loops of the loading of a bitstream end (src/uart/glasgow/transport.rs,
-- src/uart/glasgow/management.rs).
use glasgow_tool.Prelude.{
  ℕ, zero, suc, ◌+◌, ◌≤◌, ◌<◌, ◌≡◌, ◌≢◌, inl, inr, Option, none, some, List, [], ◌∷◌, ◌++◌, arith,
  Bool-cases, Option-cases, length,
}
use glasgow_tool.Error.{Error, Result, ok, err, Result-cases}
use glasgow_tool.Session.{from_millis, from_secs}
use glasgow_tool.Act.{Act, pure, after}
use glasgow_tool.Act.Keeps.{bind-ne-none}
use glasgow_tool.Glasgow.Management.{
  Management, fpga_status, finish_fpga_load, command, load_round, load_loop, fpga_timeout,
  request_fpga_status, request_fpga_load_cfg, u32_le_bytes,
}
use glasgow_tool.Glasgow.Open.{
  Device, ValidatedResource, is_loaded, step, call_device, wait_round, wait_loaded, load_anew,
  load_bitstream,
}

module _ {W : Type 0} (device : Device W) where
  -- The clock goes on, a sleep takes time, and no command turns it back.
  pub record LoadTakesTime : Type 0 where
    pub time : W → ℕ
    pub now_time : (w : W) → (device.link.clock.now w).0 ≡ time (device.link.clock.now w).1
    pub time-now : (w : W) → time w ≤ time (device.link.clock.now w).1
    pub time-sleep : (n : ℕ) (w : W) → 0 < n → time w < time (device.link.clock.sleep n w)
    pub time-command :
        (payload : List ℕ) (m : Management W)
        → time m.world ≤ time (command device.link payload m).1.world

  module _ (law : LoadTakesTime) where
    abbrev Later : (Management W → Option (Result Error Unit × Management W)) → ℕ → ℕ → Type 0
    Later again n deadline =
        (v : Management W) → 0 < n → deadline < law.time v.world + n → again v ≢ none

    load_round-ne-none :
        (again : Act (Management W) Unit) (n deadline : ℕ) (response : List ℕ) (m : Management W)
        → Later again n deadline
        → deadline < law.time m.world + suc n
        → load_round device.link again deadline response m ≢ none
    unfolding load_round
    load_round-ne-none again n deadline [] m ih h = λ e. cc
    load_round-ne-none again n deadline (code ∷ []) m ih h =
        let (now, w1) = device.link.clock.now m.world in
        let w2 = device.link.clock.sleep (from_millis 10) w1 in
        ground (
          arith,
          law.now_time m.world,
          law.time-now m.world,
          law.time-sleep (from_millis 10) w1 (omega arith),
          ih (record m { world = w2 }),
        )
    load_round-ne-none again n deadline (code ∷ more ∷ rest) m ih h = λ e. cc

    load_loop-ne-none :
        (fuel deadline : ℕ) (payload : List ℕ) (m : Management W)
        → 0 < fuel
        → deadline < law.time m.world + fuel
        → load_loop device.link fuel deadline payload m ≢ none
    unfolding load_loop
    load_loop-ne-none zero deadline payload m z h = absurd (omega arith)
    load_loop-ne-none (suc fuel) deadline payload m z h =
        let m1 = (command device.link payload m).1 in
        elim (Result-cases (command device.link payload m).0) [
          | inl (e, p) ↦ ground (arith, p)
          | inr (response, p) ↦
              let rest =
                load_round-ne-none (load_loop device.link fuel deadline payload) fuel deadline
                  response m1 (λ v. load_loop-ne-none fuel deadline payload v)
                  (omega (arith, law.time-command payload m)) in
              ground (arith, p, rest)
        ]

    finish_fpga_load-ne-none :
        (fuel n : ℕ) (id : List ℕ) (m : Management W)
        → fpga_timeout < fuel
        → finish_fpga_load device.link fuel n id m ≢ none
    unfolding finish_fpga_load
    finish_fpga_load-ne-none fuel n id m h =
        let (now, w1) = device.link.clock.now m.world in
        ground (
          arith,
          law.now_time m.world,
          load_loop-ne-none fuel (now + fpga_timeout)
              (request_fpga_load_cfg ∷ (u32_le_bytes n ++ id)) (record m { world = w1 })
              (omega arith) (omega (arith, law.now_time m.world)),
        )

    fpga_status-command :
        (m : Management W)
        → (fpga_status device.link m).1 ≡ (command device.link (request_fpga_status ∷ []) m).1
    unfolding fpga_status
    fpga_status-command m =
        elim (Result-cases (command device.link (request_fpga_status ∷ []) m).0) [
          | inl (e, p) ↦ ground (arith, p)
          | inr (response, p) ↦ ground (arith, p)
        ]

    time-fpga_status :
        (m : Management W) → law.time m.world ≤ law.time (fpga_status device.link m).1.world
    time-fpga_status m = rw (fpga_status-command m) (law.time-command (request_fpga_status ∷ []) m)

    wait_round-ne-none :
        (again : Act (Management W) Unit) (id : List ℕ) (n deadline : ℕ) (status : Option (List ℕ))
        (m : Management W)
        → Later again n deadline
        → deadline < law.time m.world + suc n
        → wait_round device again id deadline status m ≢ none
    unfolding wait_round
    wait_round-ne-none again id n deadline status m ih h =
        let (now, w1) = device.link.clock.now m.world in
        let w2 = device.link.clock.sleep (from_millis 10) w1 in
        ground (
          arith,
          law.now_time m.world,
          law.time-now m.world,
          law.time-sleep (from_millis 10) w1 (omega arith),
          ih (record m { world = w2 }),
        )

    after_status-ne-none :
        (again : Act (Management W) Unit) (id : List ℕ) (n deadline : ℕ)
        (r : Result Error (Option (List ℕ)) × Management W)
        → Later again n deadline
        → deadline < law.time r.1.world + suc n
        → after (some r) (wait_round device again id deadline) ≢ none
    after_status-ne-none again id n deadline (err x, m) ih h = λ e. cc
    after_status-ne-none again id n deadline (ok status, m) ih h =
        wait_round-ne-none again id n deadline status m ih h

    wait_loaded-ne-none :
        (fuel : ℕ) (id : List ℕ) (deadline : ℕ) (m : Management W)
        → 0 < fuel
        → deadline < law.time m.world + fuel
        → wait_loaded device fuel id deadline m ≢ none
    unfolding wait_loaded step
    wait_loaded-ne-none zero id deadline m z h = absurd (omega arith)
    wait_loaded-ne-none (suc fuel) id deadline m z h =
        after_status-ne-none (wait_loaded device fuel id deadline) id fuel deadline
          (fpga_status device.link m) (λ v. wait_loaded-ne-none fuel id deadline v)
          (omega (arith, time-fpga_status m))

    call_device-ne-none :
        {E A : Type 0} (category : E → Error) (f : W → Result E A × W) (m : Management W)
        → call_device category f m ≢ none
    unfolding call_device
    call_device-ne-none category f m = elim (Result-cases (f m.world).0) [
      | inl (e, p) ↦ ground (arith, p)
      | inr (a, p) ↦ ground (arith, p)
    ]

    then_waits :
        (fuel : ℕ) (id : List ℕ) (m : Management W)
        → from_secs 2 < fuel
        → wait_loaded device fuel id
            ((device.link.clock.now m.world).0 + from_secs 2)
            (record m { world = (device.link.clock.now m.world).1 })
          ≢ none
    then_waits fuel id m h =
        wait_loaded-ne-none fuel id _ _ (omega arith) (omega (arith, law.now_time m.world))

    load_anew-ne-none :
        (fuel : ℕ) (resource : ValidatedResource) (m : Management W)
        → from_secs 2 < fuel
        → load_anew device fuel resource m ≢ none
    unfolding load_anew
    load_anew-ne-none fuel resource m h = bind-ne-none _ _ m (call_device-ne-none _ _ m) (λ _ m1 _.
        bind-ne-none _ _ m1 (call_device-ne-none _ _ m1) (λ _ m2 _.
          bind-ne-none _ _ m2 (call_device-ne-none _ _ m2) (λ _ m3 _.
            bind-ne-none _ _ m3 (call_device-ne-none _ _ m3) (λ _ m4 _.
              bind-ne-none _ _ m4
                (finish_fpga_load-ne-none fuel (length resource.bitstream) resource.bitstream_id m4
                  h)
                (λ _ m5 _.
                  bind-ne-none _ _ m5 (call_device-ne-none _ _ m5)
                    (λ _ m6 _. then_waits fuel resource.bitstream_id m6 h))))))

    load_bitstream-ne-none :
        (fuel : ℕ) (resource : ValidatedResource) (m : Management W)
        → from_secs 2 < fuel
        → load_bitstream device fuel resource m ≢ none
    unfolding load_bitstream pure step
    load_bitstream-ne-none fuel resource m h =
        bind-ne-none _ _ m (λ e. cc)
          (λ status m1 _. elim (Bool-cases (is_loaded resource.bitstream_id status)) [
            | inl l ↦ rw l (λ e. cc)
            | inr l ↦ rw l (load_anew-ne-none fuel resource m1 h)
          ])

    -- `load_bitstream` ends within a command and a look for each nanosecond of its two seconds: it
    -- succeeds, fails or is late, if the clock does not go back and each sleep takes time.
    pub load_bitstream_returns :
        (fuel : ℕ) (resource : ValidatedResource) (m : Management W)
        → from_secs 2 < fuel
        → (out : Result Error Unit × Management W) × (load_bitstream device fuel resource m
            ≡ some out)
    load_bitstream_returns fuel resource m h =
        elim (Option-cases (load_bitstream device fuel resource m)) [
          | inl e ↦ absurd (load_bitstream-ne-none fuel resource m h e)
          | inr out ↦ out
        ]

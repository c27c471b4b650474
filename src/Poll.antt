-- ===== src/Poll.antt =====
-- A waiting loop: probe, return if done, give up if the deadline has passed, sleep, and again. The
-- drain of src/uart/c232/usb.rs ends in one.
use glasgow_tool.Prelude.{
  ℕ, zero, suc, ◌+◌, ◌≤◌, ◌<◌, ◌≡◌, ◌≢◌, refl, inl, inr, Bool, true, false, Option, none, some, leb,
  if◌then◌else◌, arith, Option-cases, Bool-cases,
}
use glasgow_tool.Error.{Error, Result, ok, err}

-- `Instant::now` and `thread::sleep`
pub record Clock (W : Type 0) : Type 0 where
  pub now : W → ℕ × W
  pub sleep : ℕ → W → W

module _ {W : Type 0} (clock : Clock W) (probe : W → Result Error Bool × W) (pause deadline : ℕ)
    (late : Error) where
  after_probe :
      (W → Option (Result Error Unit × W)) → Result Error Bool × W → Option (Result Error Unit × W)
  after_probe again (err error, w) = some (err error, w)
  after_probe again (ok true, w) = some (ok tt, w)
  after_probe again (ok false, w) =
      let (now, w1) = clock.now w in
      if leb deadline now then some (err late, w1) else again (clock.sleep pause w1)

  -- At most `fuel` probes.
  unfoldable pub poll : ℕ → W → Option (Result Error Unit × W)
  unfolding after_probe
  poll zero w = none
  poll (suc fuel) w = after_probe (poll fuel) (probe w)

  abbrev EndsBy : W → Type 0
  EndsBy w' = (v : W) × (probe v ≡ (ok true, w'))

  after_probe_ok :
      (again : W → Option (Result Error Unit × W)) (w' : W)
      → ((v : W) → again v ≡ some (ok tt, w') → EndsBy w')
      → (v : W) (r : Result Error Bool × W) → probe v ≡ r
      → after_probe again r ≡ some (ok tt, w')
      → EndsBy w'
  unfolding after_probe
  after_probe_ok again w' ih v (err error, w1) p q = cc
  after_probe_ok again w' ih v (ok true, w1) p q = (v, ground (arith, p))
  after_probe_ok again w' ih v (ok false, w1) p q =
      elim (Bool-cases (leb deadline (clock.now w1).0)) [
        | inl h ↦ absurd (ground arith)
        | inr h ↦ ih (clock.sleep pause (clock.now w1).1) (ground arith)
      ]

  -- A wait that succeeds ended with a probe that said so.
  pub poll_ok : (fuel : ℕ) (w w' : W) → poll fuel w ≡ some (ok tt, w') → EndsBy w'
  unfolding poll
  poll_ok zero w w' e = cc
  poll_ok (suc fuel) w w' e =
      after_probe_ok (poll fuel) w' (λ v. poll_ok fuel v w') w (probe w) refl e

  -- The clock goes on, and a sleep takes time.
  pub record Advances : Type 0 where
    pub time : W → ℕ
    pub now_time : (w : W) → (clock.now w).0 ≡ time (clock.now w).1
    pub time-now : (w : W) → time w ≤ time (clock.now w).1
    pub time-sleep : (w : W) → time w < time (clock.sleep pause w)
    pub time-probe : (w : W) → time w ≤ time (probe w).1

  after_probe-ne-none :
      (a : Advances) (n : ℕ) (again : W → Option (Result Error Unit × W))
      → ((v : W) → 0 < n → deadline < a.time v + n → again v ≢ none)
      → (r : Result Error Bool × W) → deadline < a.time r.1 + suc n
      → after_probe again r ≢ none
  unfolding after_probe
  after_probe-ne-none a n again ih (err error, w) h = λ e. cc
  after_probe-ne-none a n again ih (ok true, w) h = λ e. cc
  after_probe-ne-none a n again ih (ok false, w) h =
      let w1 = (clock.now w).1 in
      ground (arith, a.now_time w, a.time-now w, a.time-sleep w1, ih (clock.sleep pause w1))

  poll-ne-none :
      (a : Advances) (fuel : ℕ) (w : W) → 0 < fuel → deadline < a.time w + fuel → poll fuel w ≢ none
  unfolding poll
  poll-ne-none a zero w z h = absurd (omega arith)
  poll-ne-none a (suc fuel) w z h =
      after_probe-ne-none a fuel (poll fuel) (poll-ne-none a fuel) (probe w)
        (omega (arith, a.time-probe w))

  -- With fuel for every unit of time left, a wait ends: it succeeds, fails or is late.
  pub poll_returns :
      (a : Advances) (fuel : ℕ) (w : W)
      → 0 < fuel
      → deadline < a.time w + fuel
      → (out : Result Error Unit × W) × (poll fuel w ≡ some out)
  poll_returns a fuel w z h = elim (Option-cases (poll fuel w)) [
    | inl e ↦ absurd (poll-ne-none a fuel w z h e)
    | inr out ↦ out
  ]

-- ===== src/Session/Coordinator/Invariant.antt =====
-- What holds of the coordinator's variables in every round (src/uart/session.rs).
use glasgow_tool.Session.Coordinator.Drained.{DrainReported}
use glasgow_tool.Prelude.{ℕ, is_none, ◌<◌, ◌≡◌, true, false, some, List}
use glasgow_tool.Session.{SessionOptions, stream, rx_idle}
use glasgow_tool.Session.Coordinator.{Locals, Tick}

-- The workers have been told to stop, and the wait for them has a deadline.
pub record IsClosing (s : Locals) : Type 0 where
  pub told : s.flag ≡ true
  pub unblocked : 0 < s.cancels
  pub has_deadline : is_none s.join_deadline ≡ false

pub record IsCoherent (options : SessionOptions) (s : Locals) : Type 0 where
  pub closing_on_failure : is_none s.failure ≡ false → IsClosing s
  pub closing_on_stop : is_none s.stop_reason ≡ false → IsClosing s
  pub closing_on_deadline : is_none s.join_deadline ≡ false → IsClosing s
  pub observer_has_error : s.observer_failed ≡ true → is_none s.failure ≡ false
  pub idle_after_drain :
      options.mode ≡ stream → s.stop_reason ≡ some rx_idle → is_none s.drained_at ≡ false

-- In stream mode the reason `RxIdle` is there only if one of these rounds brought the TX worker's
-- report of its drain.
abbrev pub IdleReported : SessionOptions → List Tick → Locals → Type 0
IdleReported options ts s =
    options.mode ≡ stream
    → s.stop_reason ≡ some rx_idle
    → (instant : ℕ) × (s.drained_at ≡ some instant) × DrainReported instant ts

-- ===== src/Session/Coordinator/Failures.antt =====
-- The coordinator's failure and its stop reason (src/uart/session.rs).
use glasgow_tool.Prelude.{◌≡◌, ◌⊎◌, ◌∙◌, sym, inl, inr, true, false, some, List, [], ◌∷◌, arith}
use glasgow_tool.Error.{Error}
use glasgow_tool.Session.{SessionOptions, tx_drained, worker_error}
use glasgow_tool.Session.Coordinator.{
  Received, event, Locals, Tick, iterate, run, on_signal, on_idle, on_deadline, on_received,
}

-- From `s` to `u` the failure `e` and the observer's state are kept.
record Keeps (e : Error) (s u : Locals) : Type 0 where
  pub failure : u.failure ≡ some e
  pub observer_failed : u.observer_failed ≡ s.observer_failed

module _ (options : SessionOptions) (t : Tick) (s : Locals) where
  on_signal-Keeps : (e : Error) → s.failure ≡ some e → Keeps e s (on_signal options t s)
  unfolding on_signal
  on_signal-Keeps e h = ground arith

  on_idle-Keeps : (e : Error) → s.failure ≡ some e → Keeps e s (on_idle options t s)
  unfolding on_idle
  on_idle-Keeps e h = ground arith

  on_deadline-Keeps : (e : Error) → s.failure ≡ some e → Keeps e s (on_deadline t s)
  unfolding on_deadline
  on_deadline-Keeps e h = ground arith

  on_received_keeps :
      (r : Received) (e : Error)
      → s.failure ≡ some e
      → ((on_received options t r s).failure ≡ some e)
        ⊎ ((s.observer_failed ≡ false) × ((on_received options t r s).observer_failed ≡ true))
  unfolding on_received
  on_received_keeps (event (tx_drained reason)) e h = ground arith
  on_received_keeps (event (worker_error error)) e h = ground arith
  on_received_keeps _ e h = ground arith

  on_signal_observer : (on_signal options t s).observer_failed ≡ s.observer_failed
  unfolding on_signal
  on_signal_observer = ground arith

  on_idle_observer : (on_idle options t s).observer_failed ≡ s.observer_failed
  unfolding on_idle
  on_idle_observer = ground arith

  on_deadline_observer : (on_deadline t s).observer_failed ≡ s.observer_failed
  unfolding on_deadline
  on_deadline_observer = ground arith

  on_received_observer :
      (r : Received) → s.observer_failed ≡ true → (on_received options t r s).observer_failed ≡ true
  unfolding on_received
  on_received_observer (event (tx_drained reason)) h = ground arith
  on_received_observer _ h = ground arith

iterate_keeps_failure :
    (options : SessionOptions) (t : Tick) (s : Locals) (e : Error)
    → s.failure ≡ some e
    → ((iterate options t s).failure ≡ some e)
      ⊎ ((s.observer_failed ≡ false) × ((iterate options t s).observer_failed ≡ true))
unfolding iterate
iterate_keeps_failure options t s e h =
    let s1 = on_signal options t s in
    let s2 = on_idle options t s1 in
    let k1 = on_signal-Keeps options t s e h in
    let k2 = on_idle-Keeps options t s1 e k1.failure in
    let k3 = on_deadline-Keeps options t s2 e k2.failure in
    let same = k3.observer_failed ∙ k2.observer_failed ∙ k1.observer_failed in
    elim (on_received_keeps options t (on_deadline t s2) t.received e k3.failure) [
      | inl kept ↦ inl kept
      | inr (before, now) ↦ inr (sym same ∙ before, now)
    ]

iterate_keeps_observer_failed :
    (options : SessionOptions) (t : Tick) (s : Locals)
    → s.observer_failed ≡ true
    → (iterate options t s).observer_failed ≡ true
unfolding iterate
iterate_keeps_observer_failed options t s h =
    let s1 = on_signal options t s in
    let s2 = on_idle options t s1 in
    on_received_observer options t (on_deadline t s2) t.received (
      on_deadline_observer options t s2
      ∙ on_idle_observer options t s1
      ∙ on_signal_observer options t s
      ∙ h)

run_keeps_observer_failed :
    (options : SessionOptions) (ts : List Tick) (s : Locals)
    → s.observer_failed ≡ true
    → (run options ts s).observer_failed ≡ true
unfolding run
run_keeps_observer_failed options [] s h = h
run_keeps_observer_failed options (t ∷ ts) s h = ground (
  arith,
  run_keeps_observer_failed options ts (iterate options t s)
      (iterate_keeps_observer_failed options t s h),
)

-- The first error stays the session's error, whatever fails later, unless the observer fails
-- afterwards: then the state says so.
pub first_failure_kept :
    (options : SessionOptions) (ts : List Tick) (s : Locals) (e : Error)
    → s.failure ≡ some e
    → ((run options ts s).failure ≡ some e)
      ⊎ ((s.observer_failed ≡ false) × ((run options ts s).observer_failed ≡ true))
unfolding run
first_failure_kept options [] s e h = inl h
first_failure_kept options (t ∷ ts) s e h = ground (
  arith,
  iterate_keeps_failure options t s e h,
  iterate_keeps_observer_failed options t s,
  first_failure_kept options ts (iterate options t s) e,
  run_keeps_observer_failed options ts (iterate options t s),
)

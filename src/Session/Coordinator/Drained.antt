-- ===== src/Session/Coordinator/Drained.antt =====
-- When the coordinator notes the drain of the TX worker (src/uart/session.rs).
use glasgow_tool.Prelude.{
  ℕ, ◌≡◌, ◌⊎◌, inl, inr, some, List, [], ◌∷◌, arith, refl, sym, ◌∙◌, Bool, Bool-cases,
}
use glasgow_tool.Session.{SessionOptions, StopReason, tx_drained}
use glasgow_tool.Telemetry.{SessionEvent}
use glasgow_tool.Session.Coordinator.{
  Received, event, Locals, Tick, start, in_loop, iterate, run, on_signal, on_idle, on_deadline,
  on_received,
}

-- In one of these rounds the channel gave the TX worker's report of its drain, and the clock, asked
-- after that, this instant.
abbrev pub DrainReported : ℕ → List Tick → Type 0
DrainReported instant [] = ⊥
DrainReported instant (t ∷ ts) =
    ((reason : StopReason) × (t.received ≡ event (tx_drained reason)) × (t.at_event ≡ instant))
    ⊎ DrainReported instant ts

module _ (options : SessionOptions) (t : Tick) (s : Locals) where
  on_signal_keeps_drained : (on_signal options t s).drained_at ≡ s.drained_at
  unfolding on_signal
  on_signal_keeps_drained = ground arith

  on_idle_keeps_drained : (on_idle options t s).drained_at ≡ s.drained_at
  unfolding on_idle
  on_idle_keeps_drained = ground arith

  on_deadline_keeps_drained : (on_deadline t s).drained_at ≡ s.drained_at
  unfolding on_deadline
  on_deadline_keeps_drained = ground arith

  on_drained_noted :
      (reason : StopReason) (instant : ℕ)
      → (on_received options t (event (tx_drained reason)) s).drained_at ≡ some instant
      → (s.drained_at ≡ some instant) ⊎ (t.at_event ≡ instant)
  unfolding on_received
  on_drained_noted reason instant e = ground arith

  on_received_drained :
      (r : Received) (instant : ℕ)
      → (on_received options t r s).drained_at ≡ some instant
      → (s.drained_at ≡ some instant)
        ⊎ ((reason : StopReason) × (r ≡ event (tx_drained reason)) × (t.at_event ≡ instant))
  unfolding on_received
  on_received_drained (event (tx_drained reason)) instant e =
      elim (on_drained_noted reason instant e) [
        | inl before ↦ inl before
        | inr now ↦ inr (reason, refl, now)
      ]
  on_received_drained _ instant e = ground arith

iterate_drained :
    (options : SessionOptions) (t : Tick) (s : Locals) (instant : ℕ)
    → (iterate options t s).drained_at ≡ some instant
    → (s.drained_at ≡ some instant)
      ⊎ ((reason : StopReason) × (t.received ≡ event (tx_drained reason)) × (t.at_event ≡ instant))
unfolding iterate
iterate_drained options t s instant e =
    let s1 = on_signal options t s in
    let s2 = on_idle options t s1 in
    let kept =
      on_deadline_keeps_drained options t s2
      ∙ on_idle_keeps_drained options t s1
      ∙ on_signal_keeps_drained options t s in
    elim (on_received_drained options t (on_deadline t s2) t.received instant e) [
      | inl before ↦ inl (sym kept ∙ before)
      | inr now ↦ inr now
    ]

run_drained :
    (options : SessionOptions) (ts : List Tick) (s : Locals) (instant : ℕ)
    → (run options ts s).drained_at ≡ some instant
    → (s.drained_at ≡ some instant) ⊎ DrainReported instant ts
unfolding run
run_drained options [] s instant e = inl e
run_drained options (t ∷ ts) s instant e = elim (Bool-cases (in_loop s)) [
  | inr h ↦ inl (ground (arith, h))
  | inl h ↦ elim (run_drained options ts (iterate options t s) instant (ground (arith, h))) [
    | inr later ↦ inr (inr later)
    | inl here ↦ elim (iterate_drained options t s instant here) [
      | inl before ↦ inl before
      | inr now ↦ inr (inl now)
    ]
  ]
]

-- Before the coordinator's first round no drain is noted, so that one that is was reported.
pub drained_at-reported :
    (options : SessionOptions) (observed : List SessionEvent) (flag : Bool) (ts : List Tick)
    (instant : ℕ)
    → (run options ts (start observed flag)).drained_at ≡ some instant
    → DrainReported instant ts
drained_at-reported options observed flag ts instant e =
    elim (run_drained options ts (start observed flag) instant e) [
      | inl before ↦ absurd (ground (arith, before))
      | inr reported ↦ reported
    ]

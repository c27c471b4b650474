-- ===== src/Session/Run/Events.antt =====
-- The order of a session's events (src/uart/session.rs).
use glasgow_tool.Prelude.{
  ℕ, ◌≡◌, refl, sym, ap, ◌∙◌, ◌⊎◌, inl, inr, none, some, List, [], ◌∷◌, ◌++◌, append-nil, arith,
  Bool-cases, Option-cases,
}
use glasgow_tool.Error.{Result-cases}
use glasgow_tool.Session.{SessionOptions}
use glasgow_tool.Telemetry.{SessionEvent, running, final}
use glasgow_tool.Session.Coordinator.{Coordination, start, in_loop, run, coordination}
use glasgow_tool.Session.Coordinator.Events.{AllDraining, Extends, run-Extends}
use glasgow_tool.Session.Run.{
  Surroundings, Spawn, rx_refused, tx_refused, spawned, with_workers, observe_final, or_idle,
  running_event, final_event, conclude, coordinate, join, run_session_observed,
}

-- One event of the phase Running, then some of the phase Draining, then at most one of the phase Final.
pub record IsOrdered (events : List SessionEvent) : Type 0 where
  pub first : SessionEvent
  pub drains : List SessionEvent
  pub last : List SessionEvent
  pub whole : events ≡ first ∷ (drains ++ last)
  pub is_running : first.phase ≡ running
  pub are_draining : AllDraining drains
  pub at_most_final : (last ≡ []) ⊎ ((e : SessionEvent) × (last ≡ e ∷ []) × (e.phase ≡ final))

observed_cases :
    (o : Surroundings) (observed : List SessionEvent) (cancels : ℕ) (c : Coordination)
    → ((conclude o observed cancels c).observed ≡ observed)
      ⊎ ((e : SessionEvent) × ((conclude o observed cancels c).observed ≡ observed ++ e ∷ [])
          × (e.phase ≡ final))
unfolding conclude final_event observe_final
observed_cases o observed cancels c = elim (Bool-cases c.observer_failed) [
  | inl f ↦ inl (ground (arith, f))
  | inr f ↦ elim (Option-cases c.failure) [
    | inl n ↦ inr (final_event o (some (or_idle c.stop_reason)) none, ground (arith, f, n), refl)
    | inr (error, n) ↦ inr (final_event o c.stop_reason (some error), ground (arith, f, n), refl)
  ]
]

module _ (options : SessionOptions) (o : Surroundings) where
  alone : IsOrdered (running_event o ∷ [])
  unfolding running_event
  alone = record {
    first = running_event o;
    drains = [];
    last = [];
    whole = refl;
    is_running = refl;
    are_draining = tt;
    at_most_final = inl refl;
  }

  after_run :
      (observed : List SessionEvent)
      → Extends (running_event o ∷ []) observed
      → (last events : List SessionEvent) → events ≡ observed ++ last
      → (last ≡ []) ⊎ ((e : SessionEvent) × (last ≡ e ∷ []) × (e.phase ≡ final))
      → IsOrdered events
  unfolding running_event
  after_run observed (drains, same, all) last events whole ending = record {
    first = running_event o;
    drains = drains;
    last = last;
    whole = whole ∙ ap (λ l. l ++ last) same;
    is_running = refl;
    are_draining = all;
    at_most_final = ending;
  }

  coordinate-IsOrdered : IsOrdered (coordinate options o (running_event o ∷ [])).observed
  unfolding coordinate
  coordinate-IsOrdered =
      let s = run options o.ticks (start (running_event o ∷ []) o.flag) in
      let more = run-Extends options o.ticks (start (running_event o ∷ []) o.flag) in
      elim (Bool-cases (in_loop s)) [
        | inl g ↦ rw g (after_run s.observed more [] s.observed (sym (append-nil _)) (inl refl))
        | inr g ↦
            let c : Coordination = record (coordination s) {
              failure = join o.tx_panicked o.rx_panicked s.failure;
            } in
            rw g (elim (observed_cases o s.observed s.cancels c) [
              | inl same ↦ after_run s.observed more [] _ (same ∙ sym (append-nil _)) (inl refl)
              | inr (e, same, p) ↦ after_run s.observed more (e ∷ []) _ same (inr (e, refl, p))
            ])
      ]

  with_workers-IsOrdered :
      (spawn : Spawn) → IsOrdered (with_workers options o (running_event o ∷ []) spawn).observed
  unfolding with_workers
  with_workers-IsOrdered (rx_refused error) = alone
  with_workers-IsOrdered (tx_refused error) = alone
  with_workers-IsOrdered spawned = coordinate-IsOrdered

  -- Whatever happens in a session, its observer is told of the phase Running once and first, then of the
  -- phase Draining, and of the phase Final at most once and last.
  pub session-IsOrdered : IsOrdered (run_session_observed options o).observed
  unfolding run_session_observed running_event conclude final_event
  session-IsOrdered = elim (Result-cases o.first_answer) [
    | inl (x, a) ↦ rw a alone
    | inr (x, a) ↦ rw a (with_workers-IsOrdered o.spawn)
  ]

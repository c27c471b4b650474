-- ===== src/Session/Coordinator/Events.antt =====
-- What the coordinator hands to the observer (src/uart/session.rs).
use glasgow_tool.Prelude.{
  ◌≡◌, refl, sym, subst, ap, ◌∙◌, inl, inr, List, [], ◌∷◌, ◌++◌, arith, append-nil, append_assoc,
  Bool-cases,
}
use glasgow_tool.Error.{Error, Result-cases}
use glasgow_tool.Session.{
  SessionOptions, StopReason, tx_drained, rx_activity, worker_error, tx_stopped, rx_stopped,
}
use glasgow_tool.Telemetry.{SessionEvent, draining}
use glasgow_tool.Session.Coordinator.{
  Locals, Tick, Received, event, elapsed, disconnected, shut_down, on_signal, on_idle, on_deadline,
  draining_event, after_observation, on_drained, on_error, on_received, iterate, in_loop, run,
}

-- Every one of these events tells of the phase Draining.
abbrev pub AllDraining : List SessionEvent → Type 0
AllDraining [] = Unit
AllDraining (e ∷ es) = (e.phase ≡ draining) × AllDraining es

AllDraining-add :
    (es : List SessionEvent) (e : SessionEvent)
    → AllDraining es
    → e.phase ≡ draining
    → AllDraining (es ++ e ∷ [])
AllDraining-add [] e h p = (p, tt)
AllDraining-add (x ∷ es) e h p = (h.0, AllDraining-add es e h.1 p)

-- More events, all of the phase Draining.
abbrev pub Extends : List SessionEvent → List SessionEvent → Type 0
Extends before after = (more : List SessionEvent) × (after ≡ before ++ more) × AllDraining more

Extends-refl : (l l' : List SessionEvent) → l' ≡ l → Extends l l'
Extends-refl l l' e = ([], e ∙ sym (append-nil l), tt)

AllDraining-append :
    (xs ys : List SessionEvent) → AllDraining xs → AllDraining ys → AllDraining (xs ++ ys)
AllDraining-append [] ys h k = k
AllDraining-append (x ∷ xs) ys h k = (h.0, AllDraining-append xs ys h.1 k)

Extends-then : (a b c : List SessionEvent) → Extends a b → Extends b c → Extends a c
Extends-then a b c (xs, e, h) (ys, f, k) =
    (xs ++ ys, f ∙ ap (λ l. l ++ ys) e ∙ append_assoc a xs ys, AllDraining-append xs ys h k)

on_signal_observed :
    (options : SessionOptions) (t : Tick) (s : Locals)
    → (on_signal options t s).observed ≡ s.observed
unfolding on_signal shut_down
on_signal_observed options t s = ground arith

on_idle_observed :
    (options : SessionOptions) (t : Tick) (s : Locals) → (on_idle options t s).observed ≡ s.observed
unfolding on_idle shut_down
on_idle_observed options t s = ground arith

on_deadline_observed : (t : Tick) (s : Locals) → (on_deadline t s).observed ≡ s.observed
unfolding on_deadline
on_deadline_observed t s = ground arith

after_observation_observed :
    (options : SessionOptions) (t : Tick) (reason : StopReason) (s : Locals)
    → (after_observation options t reason s).observed ≡ s.observed
unfolding after_observation shut_down
after_observation_observed options t reason s = ground arith

on_drained_observed :
    (options : SessionOptions) (t : Tick) (reason : StopReason) (s : Locals)
    → Extends s.observed (on_drained options t reason s).observed
unfolding on_drained shut_down draining_event
on_drained_observed options t reason s =
    let seen = s.observed ++ draining_event t reason ∷ [] in
    elim (Bool-cases s.observer_failed) [
      | inl f ↦ Extends-refl _ _ (ground (arith, f, after_observation_observed options t reason s))
      | inr f ↦ elim (Result-cases t.answer) [
        | inl (x, a) ↦ (draining_event t reason ∷ [], ground (arith, f, a), (refl, tt))
        | inr (x, a) ↦ (
          draining_event t reason ∷ [],
          ground (
            arith,
            f,
            a,
            after_observation_observed options t reason (record s { observed = seen }),
          ),
          (refl, tt),
        )
      ]
    ]

on_error_observed :
    (options : SessionOptions) (t : Tick) (error : Error) (s : Locals)
    → (on_error options t error s).observed ≡ s.observed
unfolding on_error shut_down
on_error_observed options t error s = ground arith

on_received_observed :
    (options : SessionOptions) (t : Tick) (received : Received) (s : Locals)
    → Extends s.observed (on_received options t received s).observed
unfolding on_received
on_received_observed options t (event (tx_drained reason)) s =
    on_drained_observed options t reason s
on_received_observed options t (event (worker_error error)) s =
    Extends-refl _ _ (on_error_observed options t error s)
on_received_observed options t (event tx_stopped) s = Extends-refl _ _ refl
on_received_observed options t (event rx_stopped) s = Extends-refl _ _ refl
on_received_observed options t (event rx_activity) s = Extends-refl _ _ refl
on_received_observed options t elapsed s = Extends-refl _ _ refl
on_received_observed options t disconnected s = Extends-refl _ _ refl

iterate_observed :
    (options : SessionOptions) (t : Tick) (s : Locals)
    → Extends s.observed (iterate options t s).observed
unfolding iterate
iterate_observed options t s =
    let s1 = on_signal options t s in
    let s2 = on_idle options t s1 in
    let s3 = on_deadline t s2 in
    let same : s3.observed ≡ s.observed =
      on_deadline_observed t s2 ∙ on_idle_observed options t s1 ∙ on_signal_observed options t s in
    subst (λ l. Extends l (iterate options t s).observed) same
      (on_received_observed options t t.received s3)

-- A run of the coordinator only adds events of the phase Draining.
pub run-Extends :
    (options : SessionOptions) (ts : List Tick) (s : Locals)
    → Extends s.observed (run options ts s).observed
unfolding run
run-Extends options [] s = Extends-refl _ _ refl
run-Extends options (t ∷ ts) s = elim (Bool-cases (in_loop s)) [
  | inl g ↦
      let s1 = iterate options t s in
      rw g (Extends-then _ _ _ (iterate_observed options t s) (run-Extends options ts s1))
  | inr g ↦ rw g (Extends-refl _ _ refl)
]

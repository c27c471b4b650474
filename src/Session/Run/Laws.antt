-- ===== src/Session/Run/Laws.antt =====
-- What a whole session promises to its caller and to its observer (src/uart/session.rs).
use glasgow_tool.Prelude.{
  ℕ, ◌≡◌, refl, inl, inr, ◌⊎◌, Bool, true, false, Option, none, some, List, [], ◌∷◌, ◌++◌, arith,
}
use glasgow_tool.Error.{Error, Result, ok, err}
use glasgow_tool.Session.{SessionOptions, SessionReport, StopReason}
use glasgow_tool.Telemetry.{SessionEvent, final}
use glasgow_tool.Session.Coordinator.{Locals, Coordination, start, in_loop, run, coordination}
use glasgow_tool.Session.Run.{
  Surroundings, run_session_observed, coordinate, conclude, join, spawned, running_event,
  final_event,
}

conclude_ok :
    (o : Surroundings) (observed : List SessionEvent) (cancels : ℕ) (c : Coordination)
    (r : SessionReport)
    → (conclude o observed cancels c).result ≡ some (ok r)
    → (c.observer_failed ≡ false)
      × (c.failure ≡ none)
      × ((conclude o observed cancels c).observed
          ≡ observed ++ final_event o (some r.reason) none ∷ [])
      × (r.statistics ≡ o.statistics)
      × (o.final_answer ≡ ok tt)
unfolding conclude
conclude_ok o observed cancels c r h = ground arith

conclude_err :
    (o : Surroundings) (observed : List SessionEvent) (cancels : ℕ) (c : Coordination) (e : Error)
    → (conclude o observed cancels c).result ≡ some (err e)
    → (c.observer_failed ≡ true)
      ⊎ (o.final_answer ≡ err e)
      ⊎ ((conclude o observed cancels c).observed
          ≡ observed ++ final_event o c.stop_reason (some e) ∷ [])
unfolding conclude
conclude_err o observed cancels c e h = ground arith

join-none :
    (tx rx : Bool) (failure : Option Error)
    → join tx rx failure ≡ none
    → (tx ≡ false) × (rx ≡ false) × (failure ≡ none)
unfolding join
join-none true rx none h = cc
join-none false true none h = cc
join-none tx rx (some e) h = cc
join-none tx rx none h = ground arith

unfoldable pub coordinator : SessionOptions → Surroundings → Locals
coordinator options o = run options o.ticks (start (running_event o ∷ []) o.flag)

-- A last event with the session's statistics, this reason and this error.
pub record Reports (o : Surroundings) (reason : Option StopReason) (error : Option Error)
    (event : SessionEvent) : Type 0 where
  pub at_the_end : event.phase ≡ final
  pub numbers : event.statistics ≡ o.statistics
  pub hardware : event.counters ≡ o.final_counters
  pub why : event.stop_reason ≡ reason
  pub failed : event.error ≡ error

final_event-Reports :
    (o : Surroundings) (reason : Option StopReason) (error : Option Error)
    → Reports o reason error (final_event o reason error)
unfolding final_event
final_event-Reports o reason error = record {
  at_the_end = refl;
  numbers = refl;
  hardware = refl;
  why = refl;
  failed = refl;
}

-- The events of a session are those of its coordinator and one more, which reports this.
abbrev pub EndsWith : SessionOptions → Surroundings → Option StopReason → Option Error → Type 0
EndsWith options o reason error =
    (event : SessionEvent) × ((run_session_observed options o).observed
      ≡ (coordinator options o).observed ++ event ∷ [])
    × Reports o reason error event

abbrev is_report : Option (Result Error SessionReport) → Bool
is_report (some (ok r)) = true
is_report _ = false

module _ (options : SessionOptions) (o : Surroundings) where
  abbrev joined : Coordination
  joined =
      let s = coordinator options o in
      record (coordination s) { failure = join o.tx_panicked o.rx_panicked s.failure }

  coordinate_cases :
      let out = coordinate options o (running_event o ∷ []) in
      let s = coordinator options o in
      (in_loop s ≡ true) × (out.result ≡ none) × (out.observed ≡ s.observed)
      ⊎ (in_loop s ≡ false) × (out ≡ conclude o s.observed s.cancels joined)
  unfolding coordinate coordinator
  coordinate_cases = ground arith

  run_session_cases :
      let out = run_session_observed options o in
      (o.first_answer ≡ ok tt)
        × (o.spawn ≡ spawned)
        × (out ≡ coordinate options o (running_event o ∷ []))
      ⊎ (out.observed ≡ running_event o ∷ []) × (is_report out.result ≡ false)
  unfolding run_session_observed
  run_session_cases = ground arith

run_session_started :
    (options : SessionOptions) (o : Surroundings)
    → o.first_answer ≡ ok tt
    → o.spawn ≡ spawned
    → run_session_observed options o ≡ coordinate options o (running_event o ∷ [])
unfolding run_session_observed
run_session_started options o a b = ground arith

pub session_ok_observed :
    (options : SessionOptions) (o : Surroundings) (r : SessionReport)
    → (run_session_observed options o).result ≡ some (ok r)
    → (o.first_answer ≡ ok tt)
      × (o.spawn ≡ spawned)
      × (in_loop (coordinator options o) ≡ false)
      × ((coordinator options o).failure ≡ none)
      × (o.tx_panicked ≡ false)
      × (o.rx_panicked ≡ false)
      × (o.final_answer ≡ ok tt)
      × ((run_session_observed options o).observed
          ≡ (coordinator options o).observed ++ final_event o (some r.reason) none ∷ [])
      × (r.statistics ≡ o.statistics)
session_ok_observed options o r h =
    let s = coordinator options o in
    ground (
      arith,
      run_session_cases options o,
      coordinate_cases options o,
      conclude_ok o s.observed s.cancels (joined options o) r,
      join-none o.tx_panicked o.rx_panicked s.failure,
    )

-- A session that returns a report started both workers and saw both end without a panic or an
-- error; the observer accepted the first and the last event; and the last event, of the phase
-- Final, carries the report's reason and statistics, the counters of that moment, and no error.
pub session_ok :
    (options : SessionOptions) (o : Surroundings) (r : SessionReport)
    → (run_session_observed options o).result ≡ some (ok r)
    → (o.first_answer ≡ ok tt)
      × (o.spawn ≡ spawned)
      × (in_loop (coordinator options o) ≡ false)
      × ((coordinator options o).failure ≡ none)
      × (o.tx_panicked ≡ false)
      × (o.rx_panicked ≡ false)
      × (o.final_answer ≡ ok tt)
      × EndsWith options o (some r.reason) none
      × (r.statistics ≡ o.statistics)
session_ok options o r h =
    let (first, started, over, fine, tx, rx, accepted, told, numbers) =
      session_ok_observed options o r h in
    (
      first,
      started,
      over,
      fine,
      tx,
      rx,
      accepted,
      (final_event o (some r.reason) none, told, final_event-Reports o (some r.reason) none),
      numbers,
    )

-- An observer that refuses the first event ends the session with its error before a worker starts:
-- nothing else is observed and the transport is not touched.
pub session_first_refused :
    (options : SessionOptions) (o : Surroundings) (e : Error)
    → o.first_answer ≡ err e
    → run_session_observed options o
      ≡ record { observed = running_event o ∷ []; cancels = 0; result = some (err e) }
unfolding run_session_observed
session_first_refused options o e h = ground arith

pub session_error_observed :
    (options : SessionOptions) (o : Surroundings) (e : Error)
    → o.first_answer ≡ ok tt
    → o.spawn ≡ spawned
    → (run_session_observed options o).result ≡ some (err e)
    → ((coordinator options o).observer_failed ≡ true)
      ⊎ (o.final_answer ≡ err e)
      ⊎ ((run_session_observed options o).observed
          ≡ (coordinator options o).observed
            ++ final_event o (coordinator options o).stop_reason (some e) ∷ [])
session_error_observed options o e a b h =
    let s = coordinator options o in
    ground (
      arith,
      run_session_started options o a b,
      coordinate_cases options o,
      conclude_err o s.observed s.cancels (joined options o) e,
    )

-- A session whose workers have stopped and which ends with an error has reported that error: it
-- came from the observer, or the last event, of the phase Final, carries it with the
-- coordinator's stop reason, the session's statistics and the counters of that moment.
pub session_error_reported :
    (options : SessionOptions) (o : Surroundings) (e : Error)
    → o.first_answer ≡ ok tt
    → o.spawn ≡ spawned
    → (run_session_observed options o).result ≡ some (err e)
    → ((coordinator options o).observer_failed ≡ true)
      ⊎ (o.final_answer ≡ err e)
      ⊎ EndsWith options o (coordinator options o).stop_reason (some e)
session_error_reported options o e a b h =
    let reason = (coordinator options o).stop_reason in
    elim (session_error_observed options o e a b h) [
      | inl failed ↦ inl failed
      | inr (inl refused) ↦ inr (inl refused)
      | inr (inr told) ↦
          inr (inr (final_event o reason (some e), told, final_event-Reports o reason (some e)))
    ]

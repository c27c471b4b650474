-- ===== src/Cli/ExitCodes.antt =====
-- The exit codes in the event log and of the process (src/uart/telemetry.rs,
-- src/bin/common/mod.rs).
use glasgow_tool.Prelude.{
  ℕ, ◌≡◌, refl, ap, inl, inr, false, String, Option, none, some, [], ◌∷◌, ◌++◌, arith,
}
use glasgow_tool.Error.{Error, Result, ok, err}
use glasgow_tool.Session.{SessionOptions, SessionReport}
use glasgow_tool.Telemetry.{SessionEvent, error_exit_code, event_record}
use glasgow_tool.Session.Run.{Surroundings, run_session_observed, spawned, final_event}
use glasgow_tool.Session.Run.Laws.{coordinator, session_ok_observed, session_error_observed}
use glasgow_tool.Cli.{exit_code, main_code}

exit_codes_agree : (error : Error) → error_exit_code error ≡ exit_code error
unfolding error_exit_code exit_code
exit_codes_agree error = ground arith

-- The exit code that an event's record carries.
abbrev pub logged : String → ℕ → SessionEvent → Option ℕ
logged source now event = (event_record source now event).exit_code

-- The last event of the session is there, and its record carries the process's exit code.
abbrev pub LogsCode :
    SessionOptions → Surroundings → String → ℕ → Result Error SessionReport → Type 0
LogsCode options o source now r =
    (e : SessionEvent) × ((run_session_observed options o).observed
      ≡ (coordinator options o).observed ++ e ∷ [])
    × (logged source now e ≡ some (main_code r))

logs_error :
    (options : SessionOptions) (o : Surroundings) (source : String) (now : ℕ) (e : Error)
    → (run_session_observed options o).observed
      ≡ (coordinator options o).observed
        ++ final_event o (coordinator options o).stop_reason (some e) ∷ []
    → LogsCode options o source now (err e)
unfolding event_record final_event main_code
logs_error options o source now e h =
    (final_event o (coordinator options o).stop_reason (some e), h, ap some (exit_codes_agree e))

logs_ok :
    (options : SessionOptions) (o : Surroundings) (source : String) (now : ℕ) (r : SessionReport)
    → (run_session_observed options o).observed
      ≡ (coordinator options o).observed ++ final_event o (some r.reason) none ∷ []
    → LogsCode options o source now (ok r)
unfolding event_record final_event main_code
logs_ok options o source now r h = (final_event o (some r.reason) none, h, refl)

-- A session that ran to its end under an observer that accepted its events has logged, in its last
-- event, the very exit code with which the process ends: 0 for a report, 2 to 6 by the kind of the
-- error.
pub final_event_has_exit_code :
    (options : SessionOptions) (o : Surroundings) (source : String) (now : ℕ)
    (r : Result Error SessionReport)
    → o.first_answer ≡ ok tt
    → o.spawn ≡ spawned
    → (coordinator options o).observer_failed ≡ false
    → o.final_answer ≡ ok tt
    → (run_session_observed options o).result ≡ some r
    → LogsCode options o source now r
final_event_has_exit_code options o source now (ok r) a b c d h =
    logs_ok options o source now r (session_ok_observed options o r h).7
final_event_has_exit_code options o source now (err e) a b c d h =
    elim (session_error_observed options o e a b h) [
      | inl x ↦ absurd (ground arith)
      | inr (inl x) ↦ absurd (ground arith)
      | inr (inr x) ↦ logs_error options o source now e x
    ]

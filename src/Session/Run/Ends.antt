-- ===== src/Session/Run/Ends.antt =====
-- A session ends when its workers do (src/uart/session.rs).
use glasgow_tool.Prelude.{
  ℕ, ◌≡◌, ◌≢◌, refl, sym, ap, subst, inl, inr, Bool, true, false, none, some, List, [], ◌∷◌, ◌++◌,
  arith, Option-cases,
}
use glasgow_tool.Error.{Error, Result}
use glasgow_tool.Transport.{Transport}
use glasgow_tool.Session.{
  SessionOptions, SessionReport, SessionMode, WorkerEvent, tx_stopped, rx_stopped,
}
use glasgow_tool.Session.Worker.{Host, Context, send}
use glasgow_tool.Session.Tx.{tx_worker, tx_body, tx_report}
use glasgow_tool.Session.Rx.{rx_worker}
use glasgow_tool.Session.Rx.Cases.{rx_worker_cases}
use glasgow_tool.Session.Coordinator.{event, start, run, in_loop}
use glasgow_tool.Session.Coordinator.Ending.{run_over, is_tx_word, is_rx_word}
use glasgow_tool.Session.Run.{
  Surroundings, run_session_observed, running_event, coordinate, conclude,
}
use glasgow_tool.Session.Run.Channel.{Merge, swapped, Has, Merge-hears}

Has-last :
    (p : WorkerEvent → Bool) (events : List WorkerEvent) (e : WorkerEvent)
    → p e ≡ true
    → Has p (events ++ e ∷ [])
Has-last p [] e h = inl h
Has-last p (x ∷ events) e h = inr (Has-last p events e h)

session_over :
    (options : SessionOptions) (o : Surroundings)
    → in_loop (run options o.ticks (start (running_event o ∷ []) o.flag)) ≡ false
    → (run_session_observed options o).result ≢ none
unfolding run_session_observed coordinate conclude
session_over options o over = ground (arith, over)

tx_says :
    {V : Type 0} (transport : Transport V) (host : Host V) (rounds fuel wait : ℕ)
    (mode : SessionMode) (c d : Context V)
    → tx_worker transport host rounds fuel mode wait c ≡ some d
    → (earlier : List WorkerEvent) × (d.events ≡ earlier ++ tx_stopped ∷ [])
unfolding tx_worker
tx_says transport host rounds fuel wait mode c d e =
    elim (Option-cases (tx_body transport host rounds fuel mode wait c)) [
      | inl n ↦ absurd (ground (arith, n))
      | inr ((r, d1), n) ↦
          let same : d ≡ send tx_stopped (send (tx_report transport host r) d1) =
            ground (arith, n) in
          (d1.events ++ tx_report transport host r ∷ [], ap (λ k. k.events) same)
    ]

rx_says :
    {W : Type 0} (transport : Transport W) (host : Host W) (fuel : ℕ) (b a : Context W)
    → rx_worker transport host fuel b ≡ some a
    → (earlier : List WorkerEvent) × (a.events ≡ earlier ++ rx_stopped ∷ [])
rx_says transport host fuel b a e =
    let (r, d1, loop, same) = rx_worker_cases transport host fuel b a e in
    (_, ap (λ k. k.events) same)

-- Both workers' words are heard.
both_heard :
    (options : SessionOptions) (o : Surroundings)
    (tx_events rx_events tx_first rx_first : List WorkerEvent)
    → tx_events ≡ tx_first ++ tx_stopped ∷ []
    → rx_events ≡ rx_first ++ rx_stopped ∷ []
    → Merge tx_events rx_events o.ticks
    → in_loop (run options o.ticks (start (running_event o ∷ []) o.flag)) ≡ false
both_heard options o tx_events rx_events tx_first rx_first tx rx m =
    let tx_word = Merge-hears is_tx_word m (
      subst (Has (λ e. is_tx_word (event e))) (sym tx)
        (Has-last (λ e. is_tx_word (event e)) tx_first tx_stopped refl)) in
    let rx_word = Merge-hears is_rx_word (swapped m) (
      subst (Has (λ e. is_rx_word (event e))) (sym rx)
        (Has-last (λ e. is_rx_word (event e)) rx_first rx_stopped refl)) in
    ground (arith, run_over options o.ticks (start (running_event o ∷ []) o.flag), tx_word, rx_word)

-- A session whose channel hands on the events of its two workers, in any mixture, comes to a result
-- once both workers have ended, whatever the observer, the clock and the threads' start answer.
pub session_returns :
    {V W : Type 0} (tx_transport : Transport V) (tx_host : Host V) (rx_transport : Transport W)
    (rx_host : Host W) (options : SessionOptions) (o : Surroundings) (rounds tx_fuel rx_fuel : ℕ)
    (c d : Context V) (b a : Context W)
    → tx_worker tx_transport tx_host rounds tx_fuel options.mode options.drain_timeout c ≡ some d
    → rx_worker rx_transport rx_host rx_fuel b ≡ some a
    → Merge d.events a.events o.ticks
    → (r : Result Error SessionReport) × ((run_session_observed options o).result ≡ some r)
session_returns tx_transport tx_host rx_transport rx_host options o rounds tx_fuel rx_fuel c d b a
      tx rx m =
    let (tx_first, tx_last) =
      tx_says tx_transport tx_host rounds tx_fuel options.drain_timeout options.mode c d tx in
    let (rx_first, rx_last) = rx_says rx_transport rx_host rx_fuel b a rx in
    let over = both_heard options o d.events a.events tx_first rx_first tx_last rx_last m in
    elim (Option-cases (run_session_observed options o).result) [
      | inl n ↦ absurd (session_over options o over n)
      | inr r ↦ r
    ]

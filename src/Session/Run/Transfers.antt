-- ===== src/Session/Run/Transfers.antt =====
-- A whole session: the two workers, the channel and the coordinator together (src/uart/session.rs).
use glasgow_tool.Prelude.{
  ℕ, ◌+◌, ◌%◌, ◌^◌, ◌<◌, length, take-all, ◌≡◌, refl, sym, ap, subst, ◌∙◌, inl, inr, true, some,
  List, [], ◌∷◌, ◌++◌, is_none, arith, append_assoc, All,
}
use glasgow_tool.Error.{Error, Result, ok, err, Result-cases}
use glasgow_tool.Transport.{Transport}
use glasgow_tool.Session.{
  SessionOptions, SessionReport, StopReason, WorkerEvent, worker_error, rx_activity, tx_drained,
  tx_stopped, rx_stopped,
}
use glasgow_tool.Session.Worker.{Host, Context, send}
use glasgow_tool.Session.Tx.{tx_worker, tx_report}
use glasgow_tool.Session.Tx.Laws.{Views, TxLaws}
use glasgow_tool.Session.Tx.Relayed.{Relayed}
use glasgow_tool.Session.Tx.Relay.{tx_worker_cases, tx_body-Relayed}
use glasgow_tool.Session.Tx.Silent.{tx_body-IsSilent}
use glasgow_tool.Session.Rx.{rx_worker, rx_report}
use glasgow_tool.Session.Rx.Laws.{RxViews, RxLaws, Delivered}
use glasgow_tool.Session.Rx.Cases.{rx_worker_cases}
use glasgow_tool.Session.Rx.Output.{rx_loop-Delivered, reported}
use glasgow_tool.Session.Rx.Sends.{rx_loop-IsActive}
use glasgow_tool.Session.Coordinator.{start, run}
use glasgow_tool.Session.Run.{Surroundings, run_session_observed, running_event}
use glasgow_tool.Session.Run.Laws.{coordinator, session_ok}
use glasgow_tool.Session.Run.Channel.{
  Merge, swapped, Fails, Avoids, is_tx_stop, is_rx_stop, tx-Flag, rx-Flag, heard_failure,
}

abbrev IsActivity : List WorkerEvent → Type 0
IsActivity = All (λ e. e ≡ rx_activity)

Fails-after :
    (extra rest : List WorkerEvent)
    → IsActivity extra
    → Fails is_rx_stop rest
    → Fails is_rx_stop (extra ++ rest)
Fails-after [] rest h f = f
Fails-after (e ∷ extra) rest h f = inr (ap is_rx_stop h.0, Fails-after extra rest h.1 f)

Avoids-after :
    (extra rest : List WorkerEvent)
    → IsActivity extra
    → Avoids is_tx_stop rest
    → Avoids is_tx_stop (extra ++ rest)
Avoids-after [] rest h a = a
Avoids-after (e ∷ extra) rest h a = (ap is_tx_stop h.0, Avoids-after extra rest h.1 a)

-- The events of the RX worker after its activity.
abbrev rx_words : Result Error Unit → List WorkerEvent
rx_words (ok x) = rx_stopped ∷ []
rx_words (err error) = worker_error error ∷ rx_stopped ∷ []

rx_words_avoid : (r : Result Error Unit) → Avoids is_tx_stop (rx_words r)
rx_words_avoid (ok x) = (refl, tt)
rx_words_avoid (err error) = (refl, (refl, tt))

-- No failure was heard, so that the session may return a report.
no_failure :
    (options : SessionOptions) (o : Surroundings) (report : SessionReport)
    → (run_session_observed options o).result ≡ some (ok report)
    → is_none (run options o.ticks (start (running_event o ∷ []) o.flag)).failure ≡ true
unfolding coordinator
no_failure options o report h = let facts = session_ok options o report h in ap is_none facts.3

module _ {V : Type 0} (transport : Transport V) (host : Host V) (v : Views V)
    (laws : TxLaws transport host v) where
  tx_words :
      (c d1 d : Context V) (r : Result Error StopReason)
      → c.events ≡ []
      → d1.events ≡ c.events
      → d ≡ send tx_stopped (send (tx_report transport host r) d1)
      → d.events ≡ tx_report transport host r ∷ tx_stopped ∷ []
  tx_words c d1 d r none_yet quiet same =
      ap (λ k. k.events) same
      ∙ ap (λ l. (l ++ tx_report transport host r ∷ []) ++ tx_stopped ∷ []) (quiet ∙ none_yet)

  tx-Avoids :
      (r : Result Error StopReason)
      → Avoids is_rx_stop (tx_report transport host r ∷ tx_stopped ∷ [])
  unfolding tx_report
  tx-Avoids (ok reason) = (refl, (refl, tt))
  tx-Avoids (err error) = (refl, (refl, tt))

  tx-Fails :
      (error : Error) → Fails is_tx_stop (tx_report transport host (err error) ∷ tx_stopped ∷ [])
  unfolding tx_report
  tx-Fails error = inl refl

  words_ok :
      (r : Result Error StopReason) (reason : StopReason)
      → r ≡ ok reason
      → (tx_report transport host r ∷ tx_stopped ∷ []) ≡ tx_drained reason ∷ tx_stopped ∷ []
  unfolding tx_report
  words_ok r reason p = ap (λ k. tx_report transport host k ∷ tx_stopped ∷ []) p

  -- What is left of `Relayed` once the worker has reported.
  Relayed-after :
      (wire input : List ℕ) (r : Result Error StopReason) (d1 d : Context V)
      → d ≡ send tx_stopped (send (tx_report transport host r) d1)
      → Relayed v wire input r d1
      → Relayed v wire input r d
  Relayed-after wire input r d1 d same h = rw same (record {
    fresh = h.fresh;
    sent = h.sent;
    fits = h.fits;
    read = h.read;
    wired = h.wired;
    whole = h.whole;
  })

  -- The outcome of the TX worker, its two events, and what went out.
  tx_ended :
      (rounds fuel wait : ℕ) (options : SessionOptions) (c d : Context V)
      → c.statistics.tx_accepted < 2 ^ 64
      → c.events ≡ []
      → tx_worker transport host rounds fuel options.mode wait c ≡ some d
      → (r : Result Error StopReason) × (d.events ≡ tx_report transport host r ∷ tx_stopped ∷ [])
        × Relayed v (v.wire c.world) (v.consumed c.world) r d
  tx_ended rounds fuel wait options c d small none_yet e =
      let mode = options.mode in
      let (r, d1, body, same) = tx_worker_cases transport host v laws rounds fuel mode wait c d e in
      let quiet = tx_body-IsSilent transport host rounds fuel mode wait c d1 r body in
      let h = tx_body-Relayed transport host v laws rounds fuel mode wait c d1 r small body in
      (
        r,
        tx_words c d1 d r none_yet quiet same,
        Relayed-after (v.wire c.world) (v.consumed c.world) r d1 d same h,
      )

module _ {W : Type 0} (transport : Transport W) (host : Host W) (v : RxViews W)
    (laws : RxLaws transport host v) where
  rx_events :
      (r : Result Error Unit) (d1 : Context W) (extra : List WorkerEvent)
      → d1.events ≡ extra
      → (send rx_stopped (rx_report transport host r d1)).events ≡ extra ++ rx_words r
  unfolding rx_report
  rx_events (ok x) d1 extra e = ap (λ l. l ++ rx_stopped ∷ []) e
  rx_events (err error) d1 extra e =
      ap (λ l. (l ++ worker_error error ∷ []) ++ rx_stopped ∷ []) e
      ∙ append_assoc extra (worker_error error ∷ []) (rx_stopped ∷ [])

  -- The outcome of the RX worker, its events, and what was shown.
  rx_ended :
      (fuel : ℕ) (b a : Context W)
      → b.statistics.rx < 2 ^ 64
      → b.events ≡ []
      → rx_worker transport host fuel b ≡ some a
      → (r : Result Error Unit) × (extra : List WorkerEvent) × (a.events ≡ extra ++ rx_words r)
        × IsActivity extra
        × Delivered v (v.arrived b.world) (v.shown b.world) b.statistics.rx r a
  rx_ended fuel b a small none_yet e =
      let (r, d1, loop, same) = rx_worker_cases transport host fuel b a e in
      let (extra, sent, active) = rx_loop-IsActive transport host fuel b d1 r loop in
      let h = rx_loop-Delivered transport host v laws fuel b d1 r small loop in
      let from_none : d1.events ≡ extra = sent ∙ ap (λ l. l ++ extra) none_yet in
      (
        r,
        extra,
        ap (λ k. k.events) same ∙ rx_events r d1 extra from_none,
        active,
        rw same (
            reported transport host v laws (v.arrived b.world) (v.shown b.world) b.statistics.rx r
              d1 h),
      )

-- From `b` to `a` all that arrived was shown, in order and unchanged, and counted.
abbrev pub AllShown : {W : Type 0} → RxViews W → Context W → Context W → Type 0
AllShown v b a =
    (fresh : List ℕ) × (v.arrived a.world ≡ v.arrived b.world ++ fresh)
    × (v.shown a.world ≡ v.shown b.world ++ fresh)
    × (a.statistics.rx ≡ (b.statistics.rx + length fresh) % 2 ^ 64)

all_shown :
    {W : Type 0} (v : RxViews W) (b a : Context W) (r : Result Error Unit)
    → r ≡ ok tt
    → Delivered v (v.arrived b.world) (v.shown b.world) b.statistics.rx r a
    → AllShown v b a
all_shown v b a r fine h = elim h.whole [
  | inr (text, bad) ↦ absurd (ground (arith, fine, bad))
  | inl (all, counted) ↦ (
    h.fresh,
    h.came,
    h.went ∙ ap (λ l. v.shown b.world ++ l) (take-all h.passed h.fresh (omega (arith, all))),
    counted,
  )
]

-- The errors that the workers end with, if they do, would have been heard.
neither_failed :
    (options : SessionOptions) (o : Surroundings) (tx_events rx_events extra : List WorkerEvent)
    (r : Result Error Unit)
    → is_none (run options o.ticks (start (running_event o ∷ []) o.flag)).failure ≡ true
    → Merge tx_events rx_events o.ticks
    → rx_events ≡ extra ++ rx_words r
    → IsActivity extra
    → Avoids is_rx_stop tx_events
    → (¬ Fails is_tx_stop tx_events) × (r ≡ ok tt)
neither_failed options o tx_events rx_events extra r fine m e active avoids =
    let s = start (running_event o ∷ []) o.flag in
    let quiet : Avoids is_tx_stop rx_events =
      subst (Avoids is_tx_stop) (sym e)
        (Avoids-after extra (rx_words r) active (rx_words_avoid r)) in
    (
      λ f.
          let heard =
            heard_failure options (λ u. u.tx_done) is_tx_stop (tx-Flag options) m s refl refl f
              quiet in
          ground (arith, heard, fine),
      elim (Result-cases r) [
        | inr (x, p) ↦ p
        | inl (error, p) ↦
            let words : rx_events ≡ extra ++ rx_words (err error) =
              e ∙ ap (λ q. extra ++ rx_words q) p in
            let fails : Fails is_rx_stop rx_events =
              subst (Fails is_rx_stop) (sym words)
                (Fails-after extra (rx_words (err error)) active (inl refl)) in
            let heard =
              heard_failure options (λ u. u.rx_done) is_rx_stop (rx-Flag options) (swapped m) s refl
                refl fails avoids in
            absurd (ground (arith, heard, fine))
      ],
    )

module _ {V W : Type 0} (tx_transport : Transport V) (tx_host : Host V) (tx_views : Views V)
    (tx_laws : TxLaws tx_transport tx_host tx_views) (rx_transport : Transport W) (rx_host : Host W)
    (rx_views : RxViews W) (rx_laws : RxLaws rx_transport rx_host rx_views) where
  -- A session whose channel hands on the events of its two workers, in any mixture, and which returns
  -- a report, has moved the bytes: the TX worker reported a reason with `TxDrained`, and then
  -- `TxStopped`; what went out since the start is a prefix of the input that was read, in order and
  -- unchanged, and all of it if that reason is `RxIdle`, the end of the input; and all that arrived
  -- was shown, in order and unchanged, and counted.
  pub session_transfers :
      (options : SessionOptions) (o : Surroundings) (report : SessionReport)
      (rounds tx_fuel rx_fuel : ℕ) (c d : Context V) (b a : Context W)
      → c.statistics.tx_accepted < 2 ^ 64
      → b.statistics.rx < 2 ^ 64
      → c.events ≡ []
      → b.events ≡ []
      → tx_worker tx_transport tx_host rounds tx_fuel options.mode options.drain_timeout c ≡ some d
      → rx_worker rx_transport rx_host rx_fuel b ≡ some a
      → Merge d.events a.events o.ticks
      → (run_session_observed options o).result ≡ some (ok report)
      → ((reason : StopReason) × (d.events ≡ tx_drained reason ∷ tx_stopped ∷ [])
          × Relayed tx_views (tx_views.wire c.world) (tx_views.consumed c.world) (ok reason) d)
        × AllShown rx_views b a
  session_transfers options o report rounds tx_fuel rx_fuel c d b a small few none_yet none_here tx
        rx m h =
      let (r, words, relayed) =
        tx_ended tx_transport tx_host tx_views tx_laws rounds tx_fuel options.drain_timeout options
          c d small none_yet tx in
      let (q, extra, events, active, delivered) =
        rx_ended rx_transport rx_host rx_views rx_laws rx_fuel b a few none_here rx in
      let avoids : Avoids is_rx_stop d.events =
        subst (Avoids is_rx_stop) (sym words) (tx-Avoids tx_transport tx_host tx_views tx_laws r) in
      let (tx_fine, rx_fine) =
        neither_failed options o d.events a.events extra q (no_failure options o report h) m events
          active avoids in
      let shown = all_shown rx_views b a q rx_fine delivered in
      elim (Result-cases r) [
        | inl (error, p) ↦
            let tx_events =
              words ∙ ap (λ k. tx_report tx_transport tx_host k ∷ tx_stopped ∷ []) p in
            absurd (
              tx_fine (
                subst (Fails is_tx_stop) (sym tx_events)
                  (tx-Fails tx_transport tx_host tx_views tx_laws error)))
        | inr (reason, p) ↦ (
          (
            reason,
            words ∙ words_ok tx_transport tx_host tx_views tx_laws r reason p,
            subst (λ k. Relayed tx_views (tx_views.wire c.world) (tx_views.consumed c.world) k d) p
                relayed,
          ),
          shown,
        )
      ]

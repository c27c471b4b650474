-- ===== src/Session/Tx/Relay.antt =====
-- The input of the TX worker and the wire (src/uart/session.rs).
use glasgow_tool.Prelude.{
  ℕ, ◌^◌, ◌<◌, ◌≡◌, ◌≢◌, sym, ◌∙◌, ◌⊎◌, inl, inr, some, List, [], ◌∷◌, ◌++◌, arith, append_assoc,
  Option-cases,
}
use glasgow_tool.Error.{Error, Result, ok}
use glasgow_tool.Transport.{Transport}
use glasgow_tool.Session.{SessionMode, StopReason, rx_idle, WorkerEvent, tx_stopped}
use glasgow_tool.Session.Worker.{Host, Context, send}
use glasgow_tool.Session.Tx.{tx_report, tx_worker, mark_completed, tx_body, tx_finish, tx_loop}
use glasgow_tool.Session.Tx.Laws.{Views, TxLaws}
use glasgow_tool.Session.Tx.Relayed.{Relayed, Relayed-quiet}
use glasgow_tool.Session.Tx.Looping.{Relays, tx_loop-Relayed}

module _ {W : Type 0} (transport : Transport W) (host : Host W) (v : Views W)
    (laws : TxLaws transport host v) where
  -- After the loop: nothing, or a drain.
  pub tx_body_cases :
      (rounds fuel : ℕ) (mode : SessionMode) (wait : ℕ) (c d : Context W)
      (r : Result Error StopReason)
      → tx_body transport host rounds fuel mode wait c ≡ some (r, d)
      → (r1 : Result Error StopReason) × (d1 : Context W) × (tx_loop transport host rounds fuel mode
            c
          ≡ some (r1, d1))
        × ((r ≡ r1) × (d ≡ d1) × (r ≢ ok rx_idle)
            ⊎ (r ≢ ok rx_idle) × (d ≡ record d1 { world = (transport.drain wait d1.world).1 })
            ⊎ (r ≡ r1)
              × (d
                  ≡ mark_completed transport host
                      (record d1 { world = (transport.drain wait d1.world).1 })))
  unfolding tx_body tx_finish
  tx_body_cases rounds fuel mode wait c d r e =
      elim (Option-cases (tx_loop transport host rounds fuel mode c)) [
        | inl n ↦ absurd (ground (arith, n))
        | inr ((r1, d1), n) ↦ (r1, d1, n, ground (arith, n))
      ]

  pub tx_body-Relayed :
      (rounds fuel : ℕ) (mode : SessionMode) (wait : ℕ)
      → Relays transport host v laws (tx_body transport host rounds fuel mode wait)
  unfolding mark_completed
  tx_body-Relayed rounds fuel mode wait c d r small e =
      let (r1, d1, loop, next) = tx_body_cases rounds fuel mode wait c d r e in
      let h = tx_loop-Relayed transport host v laws rounds fuel mode c d1 r1 small loop in
      let quiet = laws.quiet-drain wait d1.world in
      let d2 : Context W = record d1 { world = (transport.drain wait d1.world).1 } in
      elim next [
        | inl (reason, same, more) ↦ rw (reason, same) h
        | inr (inl (more, same)) ↦ rw same (
            Relayed-quiet v (v.wire c.world) (v.consumed c.world) r1 r d1 d2 quiet
              (λ k. absurd (more k)) h)
        | inr (inr (reason, same)) ↦ rw same (
            Relayed-quiet v (v.wire c.world) (v.consumed c.world) r1 r d1
              (mark_completed transport host d2) quiet (λ k. sym reason ∙ k) h)
      ]

  pub tx_worker_cases :
      (rounds fuel : ℕ) (mode : SessionMode) (wait : ℕ) (c d : Context W)
      → tx_worker transport host rounds fuel mode wait c ≡ some d
      → (r : Result Error StopReason) × (d1 : Context W) × (tx_body transport host rounds fuel mode
            wait c
          ≡ some (r, d1))
        × (d ≡ send tx_stopped (send (tx_report transport host r) d1))
  unfolding tx_worker
  tx_worker_cases rounds fuel mode wait c d e =
      elim (Option-cases (tx_body transport host rounds fuel mode wait c)) [
        | inl n ↦ absurd (ground (arith, n))
        | inr ((r, d1), n) ↦ (r, d1, n, ground (arith, n))
      ]

  -- The last reports of `d`: the outcome `r`, and that the worker stopped.
  abbrev pub Reported : Result Error StopReason → Context W → Type 0
  Reported r d =
      (earlier : List WorkerEvent) × (d.events
        ≡ earlier ++ tx_report transport host r ∷ tx_stopped ∷ [])

  -- Whatever the reader and the transport do, in either mode: when the TX worker ends, the bytes on
  -- the wire since its start are a prefix of the bytes read, in order and unchanged, and all of them
  -- if it reports the end of its input; and its last two reports are its outcome and `TxStopped`.
  pub tx_worker-Relayed :
      (rounds fuel : ℕ) (mode : SessionMode) (wait : ℕ) (c d : Context W)
      → c.statistics.tx_accepted < 2 ^ 64
      → tx_worker transport host rounds fuel mode wait c ≡ some d
      → (r : Result Error StopReason) × Relayed v (v.wire c.world) (v.consumed c.world) r d
        × Reported r d
  tx_worker-Relayed rounds fuel mode wait c d small e =
      let (r, d1, body, same) = tx_worker_cases rounds fuel mode wait c d e in
      let h = tx_body-Relayed rounds fuel mode wait c d1 r small body in
      (
        r,
        rw same (record {
          fresh = h.fresh;
          sent = h.sent;
          fits = h.fits;
          read = h.read;
          wired = h.wired;
          whole = h.whole;
        }),
        (
          d1.events,
          rw same (append_assoc d1.events (tx_report transport host r ∷ []) (tx_stopped ∷ [])),
        ),
      )

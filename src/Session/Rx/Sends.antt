-- ===== src/Session/Rx/Sends.antt =====
-- The events that the RX worker sends (src/uart/session.rs).
use glasgow_tool.Prelude.{
  ℕ, zero, suc, ◌≡◌, refl, sym, ap, subst, ◌∙◌, inl, inr, some, List, [], ◌∷◌, ◌++◌, take, arith,
  append-nil, append_assoc, Option-cases, Bool-cases, ltb, All,
}
use glasgow_tool.Error.{Error, Result, Result-cases}
use glasgow_tool.Transport.{Transport, TransferOutcome}
use glasgow_tool.Session.{WorkerEvent, rx_activity, application_queue_bytes, would_block_backoff}
use glasgow_tool.Session.Worker.{Host, Context, Action, write_all_and_flush}
use glasgow_tool.Session.Rx.Cases.{after_status_cases, rx_round_cases}
use glasgow_tool.Session.Rx.{count_rx, deliver, after_status, after_transfer, rx_round, rx_loop}

All-append :
    (xs ys : List WorkerEvent)
    → All (λ e. e ≡ rx_activity) xs
    → All (λ e. e ≡ rx_activity) ys
    → All (λ e. e ≡ rx_activity) (xs ++ ys)
All-append [] ys h k = k
All-append (x ∷ xs) ys h k = (h.0, All-append xs ys h.1 k)

module _ {W : Type 0} where
  -- From `c` to `d` a worker sent nothing but activity.
  abbrev pub SentActivity : Context W → Context W → Type 0
  SentActivity c d =
      (extra : List WorkerEvent) × (d.events ≡ c.events ++ extra) × All (λ e. e ≡ rx_activity) extra

  abbrev IsActive : Action W Unit → Type 0
  IsActive m = (c d : Context W) (r : Result Error Unit) → m c ≡ some (r, d) → SentActivity c d

  same_events : (c d : Context W) → d.events ≡ c.events → SentActivity c d
  same_events c d e = ([], e ∙ sym (append-nil c.events), tt)

  one_event : (c d : Context W) → d.events ≡ c.events ++ rx_activity ∷ [] → SentActivity c d
  one_event c d e = (rx_activity ∷ [], e, (refl, tt))

  then_more : (b c d : Context W) → SentActivity b c → SentActivity c d → SentActivity b d
  then_more b c d (xs, e, h) (ys, f, k) =
      (xs ++ ys, f ∙ ap (λ l. l ++ ys) e ∙ append_assoc b.events xs ys, All-append xs ys h k)

module _ {W : Type 0} (transport : Transport W) (host : Host W) where
  deliver-IsActive : (n : ℕ) (buffer : List ℕ) → IsActive (deliver transport host n buffer)
  unfolding deliver count_rx
  deliver-IsActive zero buffer c d r e = same_events c d (ground arith)
  deliver-IsActive (suc n) buffer c d r e =
      elim (Result-cases (write_all_and_flush host (take (suc n) buffer) c.world).0) [
        | inl (error, a) ↦ same_events c d (ground (arith, a))
        | inr (x, a) ↦ one_event c d (ground (arith, a))
      ]

  after_status-IsActive :
      (again : Action W Unit)
      → IsActive again
      → (outcome : TransferOutcome) → IsActive (after_status transport host again outcome)
  unfolding after_status
  after_status-IsActive again ih outcome c d r e =
      elim (after_status_cases transport host again outcome c d r e) [
        | inl same ↦ same_events c d (ground (arith, same))
        | inr (inl go) ↦ ih c d r go
        | inr (inr go) ↦ ih (record c { world = host.sleep would_block_backoff c.world }) d r go
      ]

  after_transfer-IsActive :
      (again : Action W Unit)
      → IsActive again
      → (outcome : TransferOutcome) (buffer : List ℕ)
      → IsActive (after_transfer transport host again outcome buffer)
  unfolding after_transfer
  after_transfer-IsActive again ih outcome buffer c d r e =
      elim (Bool-cases (ltb application_queue_bytes outcome.completed)) [
        | inl many ↦ same_events c d (ground (arith, many))
        | inr few ↦ elim (Option-cases (deliver transport host outcome.completed buffer c)) [
          | inl n ↦ absurd (ground (arith, few, n))
          | inr ((r1, d1), n) ↦
              let first = deliver-IsActive outcome.completed buffer c d1 r1 n in
              elim (Result-cases r1) [
                | inl (error, a) ↦
                    let same : d1 ≡ d = ground (arith, few, n, a) in
                    subst (SentActivity c) same first
                | inr (x, a) ↦
                    then_more c d1 d first
                      (after_status-IsActive again ih outcome d1 d r (ground (arith, few, n, a)))
              ]
        ]
      ]

  rx_round-IsActive :
      (again : Action W Unit) → IsActive again → IsActive (rx_round transport host again)
  rx_round-IsActive again ih c d r e =
      let w1 = (host.is_cancelled c.world).1 in
      let (outcome, buffer, w2) = transport.read application_queue_bytes w1 in
      elim (rx_round_cases transport host again c d r e) [
        | inl (good, same) ↦ same_events c d (ground (arith, same))
        | inr go ↦ after_transfer-IsActive again ih outcome buffer (record c { world = w2 }) d r go
      ]

  -- Before its report, the RX worker sends nothing but activity.
  pub rx_loop-IsActive : (fuel : ℕ) → IsActive (rx_loop transport host fuel)
  unfolding rx_loop
  rx_loop-IsActive zero c d r e = cc
  rx_loop-IsActive (suc fuel) c d r e =
      rx_round-IsActive (rx_loop transport host fuel) (rx_loop-IsActive fuel) c d r e

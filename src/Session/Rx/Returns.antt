-- ===== src/Session/Rx/Returns.antt =====
-- The RX worker ends once the session is cancelled (src/uart/session.rs).
use glasgow_tool.Prelude.{
  ℕ, zero, suc, ◌<◌, ◌≤◌, ◌≡◌, ◌≢◌, refl, inl, inr, false, none, some, List, take, arith,
  Option-cases, Bool-cases,
}
use glasgow_tool.Error.{Error, Result, ok}
use glasgow_tool.Transport.{Transport, TransferOutcome}
use glasgow_tool.Session.{would_block_backoff, application_queue_bytes, rx_stopped}
use glasgow_tool.Session.Worker.{Host, Context, Action, send, write_all_and_flush}
use glasgow_tool.Session.Rx.{
  count_rx, deliver, after_status, after_transfer, rx_round, rx_loop, rx_report, rx_worker,
}

-- How many times the flag is still seen clear: each look at a clear flag is one less, and nothing else
-- that the worker does makes them more.
pub record Cancels {W : Type 0} (transport : Transport W) (host : Host W) : Type 0 where
  pub looks : W → ℕ
  pub look : (w : W) → (host.is_cancelled w).0 ≡ false → looks (host.is_cancelled w).1 < looks w
  pub looks-read : (n : ℕ) (w : W) → looks (transport.read n w).2 ≤ looks w
  pub looks-output : (bytes : List ℕ) (w : W) → looks (write_all_and_flush host bytes w).1 ≤ looks w
  pub looks-sleep : (n : ℕ) (w : W) → looks (host.sleep n w) ≤ looks w
  pub looks-mark_rx : (w : W) → looks (host.mark_rx w) ≤ looks w

module _ {W : Type 0} (transport : Transport W) (host : Host W) (p : Cancels transport host) where
  abbrev ReturnsBelow : ℕ → Action W Unit → Type 0
  ReturnsBelow n again = (c : Context W) → p.looks c.world < n → again c ≢ none

  after_status-ne-none :
      (n : ℕ) (again : Action W Unit) (outcome : TransferOutcome) (c : Context W)
      → ReturnsBelow n again
      → p.looks c.world < n
      → after_status transport host again outcome c ≢ none
  unfolding after_status
  after_status-ne-none n again outcome c ih h = ground (
    arith,
    ih c,
    ih (record c { world = host.sleep would_block_backoff c.world }),
    p.looks-sleep would_block_backoff c.world,
  )

  deliver_returns :
      (completed : ℕ) (buffer : List ℕ) (c : Context W)
      → (r : Result Error Unit) × (d : Context W) × (deliver transport host completed buffer c
          ≡ some (r, d))
        × (p.looks d.world ≤ p.looks c.world)
  unfolding deliver count_rx
  deliver_returns zero buffer c = (ok tt, c, refl, omega arith)
  deliver_returns (suc n) buffer c =
      let bytes = take (suc n) buffer in
      let w1 = (write_all_and_flush host bytes c.world).1 in
      elim (Option-cases (deliver transport host (suc n) buffer c)) [
        | inl none_left ↦ absurd (ground (arith, none_left))
        | inr ((r, d), e) ↦
            (r, d, e, ground (arith, e, p.looks-output bytes c.world, p.looks-mark_rx w1))
      ]

  after_transfer-ne-none :
      (n : ℕ) (again : Action W Unit) (outcome : TransferOutcome) (buffer : List ℕ) (c : Context W)
      → ReturnsBelow n again
      → p.looks c.world < n
      → after_transfer transport host again outcome buffer c ≢ none
  unfolding after_transfer
  after_transfer-ne-none n again outcome buffer c ih h =
      let (r, d, e, fewer) = deliver_returns outcome.completed buffer c in
      ground (arith, e, after_status-ne-none n again outcome d ih (omega (arith, fewer)))

  rx_round-ne-none :
      (n : ℕ) (again : Action W Unit) (c : Context W)
      → ReturnsBelow n again
      → p.looks c.world < suc n
      → rx_round transport host again c ≢ none
  unfolding rx_round
  rx_round-ne-none n again c ih h =
      let w1 = (host.is_cancelled c.world).1 in
      let (outcome, buffer, w2) = transport.read application_queue_bytes w1 in
      elim (Bool-cases (host.is_cancelled c.world).0) [
        | inl t ↦ ground (arith, t)
        | inr t ↦
            let fewer : p.looks w2 < n =
              omega (arith, p.look c.world t, p.looks-read application_queue_bytes w1) in
            ground (
              arith,
              t,
              after_transfer-ne-none n again outcome buffer (record c { world = w2 }) ih fewer,
            )
      ]

  rx_loop-ne-none : (fuel : ℕ) → ReturnsBelow fuel (rx_loop transport host fuel)
  unfolding rx_loop
  rx_loop-ne-none zero c h = absurd (omega arith)
  rx_loop-ne-none (suc fuel) c h =
      rx_round-ne-none fuel (rx_loop transport host fuel) c (rx_loop-ne-none fuel) h

  -- With a read for each time that the flag is still seen clear, and one more, the RX worker ends: a
  -- session that is cancelled stops it, whatever the transport and the output do.
  pub rx_worker-Returns :
      (fuel : ℕ) (c : Context W)
      → p.looks c.world < fuel
      → (d : Context W) × (rx_worker transport host fuel c ≡ some d)
  unfolding rx_worker
  rx_worker-Returns fuel c h = elim (Option-cases (rx_loop transport host fuel c)) [
    | inl n ↦ absurd (rx_loop-ne-none fuel c h n)
    | inr ((r, d), n) ↦ (send rx_stopped (rx_report transport host r d), ground (arith, n))
  ]

-- ===== src/Session/Rx/Cases.antt =====
-- The cases of each part of `rx_worker` (src/uart/session.rs).
use glasgow_tool.Prelude.{
  ℕ, zero, suc, ◌+◌, ◌%◌, ◌^◌, ◌≤◌, ◌<◌, ◌≡◌, ◌≢◌, ◌⊎◌, inl, inr, some, List, take, arith,
  Option-cases, ◌+s◌,
}
use glasgow_tool.Error.{Error, access, Result, ok, err, Result-cases, IoError}
use glasgow_tool.Transport.{Transport, TransferOutcome}
use glasgow_tool.Session.{application_queue_bytes, would_block_backoff, rx_stopped}
use glasgow_tool.Session.Worker.{Host, Context, Action, send, write_all_and_flush}
use glasgow_tool.Session.Rx.{
  count_rx, deliver, after_status, after_transfer, rx_round, rx_loop, rx_report, rx_worker,
}

module _ {W : Type 0} (transport : Transport W) (host : Host W) where
  pub deliver_cases :
      (n : ℕ) (buffer : List ℕ) (c d : Context W) (r : Result Error Unit)
      → c.statistics.rx < 2 ^ 64
      → deliver transport host n buffer c ≡ some (r, d)
      → let (answer, w1) = write_all_and_flush host (take n buffer) c.world in
        ((n ≡ 0) × (r ≡ ok tt) × (d ≡ c))
        ⊎ ((error : IoError) × (answer ≡ err error)
            × (r ≡ err (access ("stdout write failed: " +s error.message)))
            × (d ≡ record c { world = w1 }))
        ⊎ ((answer ≡ ok tt)
            × (r ≡ ok tt)
            × (d.world ≡ host.mark_rx w1)
            × (d.statistics.rx ≡ (c.statistics.rx + n) % 2 ^ 64))
  unfolding deliver count_rx
  deliver_cases zero buffer c d r small e = inl (ground arith)
  deliver_cases (suc n) buffer c d r small e =
      let (answer, w1) = write_all_and_flush host (take (suc n) buffer) c.world in
      elim (Result-cases answer) [
        | inl (error, a) ↦ inr (inl (error, a, ground (arith, a), ground (arith, a)))
        | inr (x, a) ↦ inr (inr (ground (arith, a)))
      ]

  pub after_status_cases :
      (again : Action W Unit) (outcome : TransferOutcome) (c d : Context W) (r : Result Error Unit)
      → after_status transport host again outcome c ≡ some (r, d)
      → (d ≡ c)
        ⊎ (again c ≡ some (r, d))
        ⊎ (again (record c { world = host.sleep would_block_backoff c.world }) ≡ some (r, d))
  unfolding after_status
  after_status_cases again outcome c d r e = ground arith

  pub after_transfer_cases :
      (again : Action W Unit) (outcome : TransferOutcome) (buffer : List ℕ) (c d : Context W)
      (r : Result Error Unit)
      → outcome.completed ≤ application_queue_bytes
      → after_transfer transport host again outcome buffer c ≡ some (r, d)
      → (r1 : Result Error Unit) × (d1 : Context W) × (deliver transport host outcome.completed
            buffer c
          ≡ some (r1, d1))
        × ((r1 ≢ ok tt) × (r ≡ r1) × (d ≡ d1)
            ⊎ (r1 ≡ ok tt) × (after_status transport host again outcome d1 ≡ some (r, d)))
  unfolding after_transfer
  after_transfer_cases again outcome buffer c d r fits e =
      elim (Option-cases (deliver transport host outcome.completed buffer c)) [
        | inl n ↦ absurd (ground (arith, n))
        | inr ((r1, d1), n) ↦ elim (Result-cases r1) [
          | inl (error, a) ↦ (r1, d1, n, inl (ground (arith, n, a)))
          | inr (x, a) ↦ (r1, d1, n, inr (ground (arith, n, a)))
        ]
      ]

  pub rx_round_cases :
      (again : Action W Unit) (c d : Context W) (r : Result Error Unit)
      → rx_round transport host again c ≡ some (r, d)
      → let w1 = (host.is_cancelled c.world).1 in
        let (outcome, buffer, w2) = transport.read application_queue_bytes w1 in
        ((r ≡ ok tt) × (d ≡ record c { world = w1 }))
        ⊎ (after_transfer transport host again outcome buffer (record c { world = w2 })
            ≡ some (r, d))
  unfolding rx_round
  rx_round_cases again c d r e = ground arith

  pub rx_worker_cases :
      (fuel : ℕ) (c d : Context W)
      → rx_worker transport host fuel c ≡ some d
      → (r : Result Error Unit) × (d1 : Context W) × (rx_loop transport host fuel c ≡ some (r, d1))
        × (d ≡ send rx_stopped (rx_report transport host r d1))
  unfolding rx_worker
  rx_worker_cases fuel c d e = elim (Option-cases (rx_loop transport host fuel c)) [
    | inl n ↦ absurd (ground (arith, n))
    | inr ((r, d1), n) ↦ (r, d1, n, ground (arith, n))
  ]

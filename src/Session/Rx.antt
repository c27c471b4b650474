-- ===== src/Session/Rx.antt =====
-- The RX worker of src/uart/session.rs: `rx_worker`.
pub mod Laws
pub mod Cases
pub mod Output
pub mod Returns
pub mod Sends
use glasgow_tool.Prelude.{
  ℕ, zero, suc, Option, none, some, List, ltb, ◌==◌, if◌then◌else◌, take, ◌+s◌,
}
use glasgow_tool.Error.{Error, Result, ok, err, IoError}
use glasgow_tool.Transport.{Transport, TransferOutcome}
use glasgow_tool.Session.{
  worker_error, rx_activity, rx_stopped, application_queue_bytes, would_block_backoff,
  map_transfer_failure, fetch_add,
}
use glasgow_tool.Session.Worker.{
  Host, Context, Action, ◌>>=◌, ◌>>◌, pure, fail, send, change, ask, attempt, write_all_and_flush,
}

module _ {W : Type 0} (transport : Transport W) (host : Host W) where
  unfoldable pub count_rx : ℕ → Action W Unit
  count_rx n c =
      some
        (ok tt, record c { statistics = record c.statistics { rx = fetch_add c.statistics.rx n } })

  -- `if outcome.completed != 0 { … }`: the bytes go out before they are counted.
  unfoldable pub deliver : ℕ → List ℕ → Action W Unit
  unfolding count_rx
  deliver completed buffer = if completed == 0 then pure tt else do
    attempt (λ (e : IoError). Error.access ("stdout write failed: " +s e.message))
        (write_all_and_flush host (take completed buffer))
    count_rx completed
    change host.mark_rx
    λ c. some (ok tt, send rx_activity c)

  -- What the status of the transfer means; `again` is the next round.
  unfoldable pub after_status : Action W Unit → TransferOutcome → Action W Unit
  after_status again outcome = elim outcome.failure [
    | some failure ↦ elim (map_transfer_failure failure) [
      | some error ↦ fail error
      | none ↦
          if outcome.completed == 0
          then (do change (host.sleep would_block_backoff); again)
          else again
    ]
    | none ↦
        if outcome.completed == 0
        then fail (Error.protocol "transport completed a zero-length RX without status")
        else again
  ]

  unfoldable pub after_transfer : Action W Unit → TransferOutcome → List ℕ → Action W Unit
  after_transfer again outcome buffer =
      if ltb application_queue_bytes outcome.completed
      then fail (Error.protocol "transport reported more RX bytes than buffer capacity")
      else do deliver outcome.completed buffer; after_status again outcome

  unfoldable pub rx_round : Action W Unit → Action W Unit
  rx_round again = do
    stop ← ask host.is_cancelled
    if stop then pure tt else λ c.
        let (outcome, buffer, w) = transport.read application_queue_bytes c.world in
        after_transfer again outcome buffer (record c { world = w })

  -- The `while` loop: at most `fuel` reads.
  unfoldable pub rx_loop : ℕ → Action W Unit
  rx_loop zero c = none
  rx_loop (suc fuel) c = rx_round (rx_loop fuel) c

  unfoldable pub rx_report : Result Error Unit → Context W → Context W
  rx_report (ok _) c = c
  rx_report (err error) c = send (worker_error error) c

  unfoldable pub rx_worker : ℕ → Context W → Option (Context W)
  unfolding rx_report
  rx_worker fuel c = elim (rx_loop fuel c) [
    | none ↦ none
    | some (result, d) ↦ some (send rx_stopped (rx_report result d))
  ]

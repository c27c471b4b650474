-- ===== src/Session/Tx.antt =====
-- The TX worker of src/uart/session.rs: `write_transport` and `tx_worker`.
pub mod Laws
pub mod Wire
pub mod Returns
pub mod Kept
pub mod Ending
pub mod Escape
pub mod Silent
pub mod Sending
pub mod Relayed
pub mod Looping
pub mod Relay
use glasgow_tool.Prelude.{
  ℕ, zero, suc, Bool, true, false, Option, none, some, List, [], ◌∷◌, ltb, ◌==◌, if◌then◌else◌,
  length, drop, take, position, is_empty, ◌+s◌, ◌&&◌, not,
}
use glasgow_tool.Error.{Error, Result, ok, err, ErrorKind, IoError}
use glasgow_tool.Transport.{Transport, TransferOutcome}
use glasgow_tool.Session.{
  SessionMode, console, stream, StopReason, rx_idle, console_escape_seen, cancelled, WorkerEvent,
  worker_error, tx_drained, tx_stopped, console_escape, application_queue_bytes,
  would_block_backoff, map_transfer_failure, fetch_add,
}
use glasgow_tool.Session.Worker.{
  Host, Context, Action, ◌>>=◌, ◌>>◌, pure, fail, send, change, ask, attempt, write_all_and_flush,
}

module _ {W : Type 0} (transport : Transport W) (host : Host W) where
  -- `if outcome.completed != 0 { tx_accepted.fetch_add(outcome.completed) }`
  unfoldable pub account : ℕ → Context W → Context W
  account n c = if n == 0 then c else record c {
    statistics = record c.statistics { tx_accepted = fetch_add c.statistics.tx_accepted n };
  }

  unfoldable pub nap : ℕ → Context W → Context W
  nap completed c =
      if completed == 0 then record c { world = host.sleep would_block_backoff c.world } else c

  -- One round of the loop after `transport.write` answered; `again` is the next round.
  unfoldable pub after_write : (List ℕ → Action W Unit) → List ℕ → TransferOutcome → Action W Unit
  after_write again bytes outcome c =
      if ltb (length bytes) outcome.completed
      then some (err (Error.protocol "transport reported more TX bytes than submitted"), c)
      else let c1 : Context W = account outcome.completed c in
        let rest = drop outcome.completed bytes in
        elim outcome.failure [
          | some failure ↦ elim (map_transfer_failure failure) [
            | some error ↦ some (err error, c1)
            | none ↦ again rest (nap outcome.completed c1)
          ]
          | none ↦
              if outcome.completed == 0
              then some
                  (err (Error.protocol "transport completed a zero-length TX without status"), c1)
              else again rest c1
        ]

  unfoldable pub write_round : (List ℕ → Action W Unit) → List ℕ → Action W Unit
  write_round again bytes c =
      if is_empty bytes
      then some (ok tt, c)
      else let (stop, w1) = host.is_cancelled c.world in
        if stop
        then some (ok tt, record c { world = w1 })
        else let (outcome, w2) = transport.write bytes w1 in
          after_write again bytes outcome (record c { world = w2 })

  -- `write_transport`: at most `fuel` rounds
  unfoldable pub write_transport : ℕ → List ℕ → Action W Unit
  write_transport zero bytes c = none
  write_transport (suc fuel) bytes c = write_round (write_transport fuel) bytes c

  -- The place of Ctrl-] in a chunk, which only a console looks for.
  unfoldable pub escape_index : SessionMode → List ℕ → Option ℕ
  escape_index console bytes = position (λ b. b == console_escape) bytes
  escape_index stream bytes = none

  -- `escape_index.unwrap_or(length)`
  unfoldable pub transmitted : SessionMode → List ℕ → ℕ
  transmitted mode bytes = elim (escape_index mode bytes) [
    | none ↦ length bytes
    | some index ↦ index
  ]

  unfoldable pub echo : SessionMode → List ℕ → Action W Unit
  echo stream bytes = pure tt
  echo console bytes =
      if is_empty bytes
      then pure tt
      else attempt (λ (e : IoError). Error.access ("local echo write failed: " +s e.message))
          (write_all_and_flush host bytes)

  -- What the loop does with a chunk: echo it, write it, submit it.
  unfoldable pub forward : ℕ → SessionMode → List ℕ → Action W Unit
  forward rounds mode bytes = do
    let sent = take (transmitted mode bytes) bytes
    echo mode sent
    write_transport rounds sent
    change transport.submit_tx

  unfoldable pub after_chunk : Action W StopReason → Option ℕ → Action W StopReason
  after_chunk again none = again
  after_chunk again (some index) = pure console_escape_seen

  unfoldable pub after_error : Action W StopReason → IoError → Action W StopReason
  after_error again error = elim error.kind [
    | ErrorKind.interrupted ↦ again
    | _ ↦ fail (Error.access ("stdin read failed: " +s error.message))
  ]

  unfoldable pub after_read :
      Action W StopReason → ℕ → SessionMode → Result IoError (List ℕ) → Action W StopReason
  after_read again rounds mode (ok bytes) =
      if is_empty bytes
      then pure rx_idle
      else (do forward rounds mode bytes; after_chunk again (escape_index mode bytes))
  after_read again rounds mode (err error) = after_error again error

  unfoldable pub tx_round : Action W StopReason → ℕ → SessionMode → Action W StopReason
  tx_round again rounds mode = do
    stop ← ask host.is_cancelled
    if stop then pure cancelled else do
      chunk ← ask (host.read_input application_queue_bytes)
      after_read again rounds mode chunk

  -- The `loop` of `tx_worker`: at most `fuel` reads, each with at most `rounds` writes.
  unfoldable pub tx_loop : ℕ → ℕ → SessionMode → Action W StopReason
  tx_loop rounds zero mode c = none
  tx_loop rounds (suc fuel) mode c = tx_round (tx_loop rounds fuel mode) rounds mode c

  -- `tx_completed.store(tx_accepted.load())`
  unfoldable pub mark_completed : Context W → Context W
  mark_completed c = record c {
    statistics = record c.statistics { tx_completed = c.statistics.tx_accepted };
  }

  unfoldable pub tx_finish : ℕ → StopReason → Action W StopReason
  tx_finish drain_timeout cancelled = pure cancelled
  tx_finish drain_timeout reason = do
    attempt (λ (e : Error). e) (transport.drain drain_timeout)
    λ c. some (ok reason, mark_completed c)

  unfoldable pub tx_body : ℕ → ℕ → SessionMode → ℕ → Action W StopReason
  tx_body rounds fuel mode drain_timeout = do
    reason ← tx_loop rounds fuel mode
    tx_finish drain_timeout reason

  unfoldable pub tx_report : Result Error StopReason → WorkerEvent
  tx_report (ok reason) = tx_drained reason
  tx_report (err error) = worker_error error

  unfoldable pub tx_worker : ℕ → ℕ → SessionMode → ℕ → Context W → Option (Context W)
  tx_worker rounds fuel mode drain_timeout c = elim (tx_body rounds fuel mode drain_timeout c) [
    | none ↦ none
    | some (result, d) ↦ some (send tx_stopped (send (tx_report result) d))
  ]

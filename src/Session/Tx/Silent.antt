-- ===== src/Session/Tx/Silent.antt =====
-- The TX worker (src/uart/session.rs) sends no event before its two last ones.
use glasgow_tool.Prelude.{
  ℕ, zero, suc, ◌≡◌, inl, inr, some, List, [], ◌∷◌, drop, take, arith, Option-cases,
}
use glasgow_tool.Error.{Error, Result, ok, err, Result-cases, IoError}
use glasgow_tool.Transport.{Transport, TransferOutcome}
use glasgow_tool.Session.{SessionMode, StopReason, console, stream, application_queue_bytes}
use glasgow_tool.Session.Worker.{Host, Context, Action}
use glasgow_tool.Session.Tx.{
  account, nap, after_write, write_round, write_transport, transmitted, echo, forward, after_chunk,
  after_error, after_read, tx_round, tx_loop, tx_finish, tx_body, mark_completed,
}

-- Whatever it comes to, the action sends no event.
abbrev pub IsSilent : {W A : Type 0} → Action W A → Type 0
IsSilent {W = W} {A = A} m =
    (c d : Context W) (r : Result Error A) → m c ≡ some (r, d) → d.events ≡ c.events

module _ {W : Type 0} (transport : Transport W) (host : Host W) where
  after_write-IsSilent :
      (again : List ℕ → Action W Unit)
      → ((bytes : List ℕ) → IsSilent (again bytes))
      → (bytes : List ℕ) (outcome : TransferOutcome)
      → IsSilent (after_write transport host again bytes outcome)
  unfolding after_write account nap
  after_write-IsSilent again ih bytes outcome c d r e =
      let k = outcome.completed in
      let c1 = account transport host k c in
      let rest = drop k bytes in
      ground (arith, ih rest c1 d r, ih rest (nap transport host k c1) d r)

  write_round-IsSilent :
      (again : List ℕ → Action W Unit)
      → ((bytes : List ℕ) → IsSilent (again bytes))
      → (bytes : List ℕ) → IsSilent (write_round transport host again bytes)
  unfolding write_round
  write_round-IsSilent again ih bytes c d r e =
      let w1 = (host.is_cancelled c.world).1 in
      let (outcome, w2) = transport.write bytes w1 in
      ground (arith, after_write-IsSilent again ih bytes outcome (record c { world = w2 }) d r)

  write_transport-IsSilent :
      (fuel : ℕ) (bytes : List ℕ) → IsSilent (write_transport transport host fuel bytes)
  unfolding write_transport
  write_transport-IsSilent zero bytes c d r e = cc
  write_transport-IsSilent (suc fuel) bytes c d r e =
      write_round-IsSilent (write_transport transport host fuel) (write_transport-IsSilent fuel)
        bytes c d r e

  echo-IsSilent : (mode : SessionMode) (bytes : List ℕ) → IsSilent (echo transport host mode bytes)
  unfolding echo
  echo-IsSilent stream bytes c d r e = ground arith
  echo-IsSilent console bytes c d r e = ground arith

  forward-IsSilent :
      (rounds : ℕ) (mode : SessionMode) (bytes : List ℕ)
      → IsSilent (forward transport host rounds mode bytes)
  unfolding forward
  forward-IsSilent rounds mode bytes c d r e =
      let sent = take (transmitted transport host mode bytes) bytes in
      elim (Option-cases (echo transport host mode sent c)) [
        | inl n ↦ absurd (ground (arith, n))
        | inr ((r1, c1), n) ↦
            let quiet = echo-IsSilent mode sent c c1 r1 n in
            elim (Option-cases (write_transport transport host rounds sent c1)) [
              | inl k ↦ ground (arith, n, k, quiet)
              | inr ((r2, c2), k) ↦
                  ground (arith, n, k, quiet, write_transport-IsSilent rounds sent c1 c2 r2 k)
            ]
      ]

  after_read-IsSilent :
      (again : Action W StopReason)
      → IsSilent again
      → (rounds : ℕ) (mode : SessionMode) (chunk : Result IoError (List ℕ))
      → IsSilent (after_read transport host again rounds mode chunk)
  unfolding after_read after_error after_chunk
  after_read-IsSilent again ih rounds mode (err error) c d r e = ground (arith, ih c d r)
  after_read-IsSilent again ih rounds mode (ok []) c d r e = ground arith
  after_read-IsSilent again ih rounds mode (ok (b ∷ bytes)) c d r e =
      elim (Option-cases (forward transport host rounds mode (b ∷ bytes) c)) [
        | inl n ↦ absurd (ground (arith, n))
        | inr ((r1, d1), n) ↦
            ground (arith, n, forward-IsSilent rounds mode (b ∷ bytes) c d1 r1 n, ih d1 d r)
      ]

  tx_round-IsSilent :
      (again : Action W StopReason)
      → IsSilent again
      → (rounds : ℕ) (mode : SessionMode) → IsSilent (tx_round transport host again rounds mode)
  unfolding tx_round
  tx_round-IsSilent again ih rounds mode c d r e =
      let w1 = (host.is_cancelled c.world).1 in
      let (chunk, w2) = host.read_input application_queue_bytes w1 in
      ground (arith, after_read-IsSilent again ih rounds mode chunk (record c { world = w2 }) d r)

  tx_loop-IsSilent :
      (rounds fuel : ℕ) (mode : SessionMode) → IsSilent (tx_loop transport host rounds fuel mode)
  unfolding tx_loop
  tx_loop-IsSilent rounds zero mode c d r e = cc
  tx_loop-IsSilent rounds (suc fuel) mode c d r e =
      tx_round-IsSilent (tx_loop transport host rounds fuel mode)
        (tx_loop-IsSilent rounds fuel mode) rounds mode c d r e

  tx_finish-IsSilent :
      (timeout : ℕ) (reason : StopReason) → IsSilent (tx_finish transport host timeout reason)
  unfolding tx_finish mark_completed
  tx_finish-IsSilent timeout reason c d r e = ground arith

  -- The body of the TX worker sends no event.
  pub tx_body-IsSilent :
      (rounds fuel : ℕ) (mode : SessionMode) (timeout : ℕ)
      → IsSilent (tx_body transport host rounds fuel mode timeout)
  unfolding tx_body
  tx_body-IsSilent rounds fuel mode timeout c d r e =
      elim (Option-cases (tx_loop transport host rounds fuel mode c)) [
        | inl n ↦ absurd (ground (arith, n))
        | inr ((r1, d1), n) ↦
            let quiet = tx_loop-IsSilent rounds fuel mode c d1 r1 n in
            elim (Result-cases r1) [
              | inl (error, a) ↦ ground (arith, n, a, quiet)
              | inr (reason, a) ↦
                  ground (arith, n, a, quiet, tx_finish-IsSilent timeout reason d1 d r)
            ]
      ]

-- ===== src/Session/Tx/Kept.antt =====
-- What sending a chunk (`forward` and `write_transport`, from the `loop` of `tx_worker` in
-- src/uart/session.rs) leaves of a measure of the world.
use glasgow_tool.Prelude.{
  ℕ, zero, suc, ◌≤◌, ◌≡◌, refl, inl, inr, some, List, arith, drop, take, Option-cases,
}
use glasgow_tool.Error.{Error, Result, ok}
use glasgow_tool.Transport.{Transport, TransferOutcome}
use glasgow_tool.Session.{SessionMode, console, stream, would_block_backoff}
use glasgow_tool.Session.Worker.{Host, Context, Action, write_all_and_flush}
use glasgow_tool.Session.Tx.{
  account, nap, after_write, write_round, write_transport, transmitted, echo, forward,
}

-- A measure that no step of sending a chunk makes larger.
pub record Falls {W : Type 0} (transport : Transport W) (host : Host W) (m : W → ℕ) : Type 0 where
  pub fall-write : (bytes : List ℕ) (w : W) → m (transport.write bytes w).1 ≤ m w
  pub fall-is_cancelled : (w : W) → m (host.is_cancelled w).1 ≤ m w
  pub fall-sleep : (n : ℕ) (w : W) → m (host.sleep n w) ≤ m w
  pub fall-output : (bytes : List ℕ) (w : W) → m (write_all_and_flush host bytes w).1 ≤ m w
  pub fall-submit_tx : (w : W) → m (transport.submit_tx w) ≤ m w

module _ {W : Type 0} (transport : Transport W) (host : Host W) (m : W → ℕ)
    (falls : Falls transport host m) where
  abbrev Kept : (List ℕ → Action W Unit) → Type 0
  Kept again =
      (bytes : List ℕ) (c d : Context W) (r : Result Error Unit)
      → again bytes c ≡ some (r, d)
      → m d.world ≤ m c.world

  after_write-Kept :
      (again : List ℕ → Action W Unit)
      → Kept again
      → (bytes : List ℕ) (outcome : TransferOutcome) (c d : Context W) (r : Result Error Unit)
      → after_write transport host again bytes outcome c ≡ some (r, d)
      → m d.world ≤ m c.world
  unfolding after_write account nap
  after_write-Kept again ih bytes outcome c d r e =
      let k = outcome.completed in
      let c1 = account transport host k c in
      let rest = drop k bytes in
      ground (
        arith,
        ih rest c1 d r,
        ih rest (nap transport host k c1) d r,
        falls.fall-sleep would_block_backoff c.world,
      )

  write_round-Kept :
      (again : List ℕ → Action W Unit) → Kept again → Kept (write_round transport host again)
  unfolding write_round
  write_round-Kept again ih bytes c d r e =
      let w1 = (host.is_cancelled c.world).1 in
      let (outcome, w2) = transport.write bytes w1 in
      ground (
        arith,
        after_write-Kept again ih bytes outcome (record c { world = w2 }) d r,
        falls.fall-write bytes w1,
        falls.fall-is_cancelled c.world,
      )

  pub write_transport-Kept : (fuel : ℕ) → Kept (write_transport transport host fuel)
  unfolding write_transport
  write_transport-Kept zero bytes c d r e = cc
  write_transport-Kept (suc fuel) bytes c d r e =
      write_round-Kept (write_transport transport host fuel) (write_transport-Kept fuel) bytes c d r
        e

  pub echo-Kept :
      (mode : SessionMode) (bytes : List ℕ) (c : Context W)
      → (r : Result Error Unit) × (d : Context W) × (echo transport host mode bytes c ≡ some (r, d))
        × (m d.world ≤ m c.world)
  unfolding echo
  echo-Kept stream bytes c = (ok tt, c, refl, omega arith)
  echo-Kept console bytes c = elim (Option-cases (echo transport host console bytes c)) [
    | inl n ↦ absurd (ground (arith, n))
    | inr ((r, d), n) ↦ (r, d, n, ground (arith, n, falls.fall-output bytes c.world))
  ]

  pub forward-Kept :
      (rounds : ℕ) (mode : SessionMode) (bytes : List ℕ) (c d : Context W) (r : Result Error Unit)
      → forward transport host rounds mode bytes c ≡ some (r, d)
      → m d.world ≤ m c.world
  unfolding forward
  forward-Kept rounds mode bytes c d r e =
      let sent = take (transmitted transport host mode bytes) bytes in
      let (r1, d1, e1, fewer) = echo-Kept mode sent c in
      elim (Option-cases (write_transport transport host rounds sent d1)) [
        | inl n ↦ ground (arith, e1, n)
        | inr ((r2, d2), n) ↦ ground (
          arith,
          e1,
          n,
          write_transport-Kept rounds sent d1 d2 r2 n,
          falls.fall-submit_tx d2.world,
        )
      ]

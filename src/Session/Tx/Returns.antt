-- ===== src/Session/Tx/Returns.antt =====
-- The rounds of `write_transport` (src/uart/session.rs).
use glasgow_tool.Prelude.{
  ℕ, zero, suc, ◌+◌, ◌<◌, ◌≤◌, ◌≡◌, ◌≢◌, inl, inr, none, some, List, length, arith, drop,
  length-drop, true, Option-cases,
}
use glasgow_tool.Error.{Error, Result}
use glasgow_tool.Transport.{Transport, TransferOutcome}
use glasgow_tool.Session.{would_block_backoff}
use glasgow_tool.Session.Worker.{Host, Context, Action}
use glasgow_tool.Session.Tx.{account, nap, after_write, write_round, write_transport}
use glasgow_tool.Session.Tx.Laws.{Patience, is_retry}

module _ {W : Type 0} (transport : Transport W) (host : Host W) (p : Patience transport host) where
  abbrev Returns : Action W Unit → Context W → Type 0
  Returns m c = m c ≢ none

  abbrev effort : List ℕ → W → ℕ
  effort bytes w = length bytes + p.retries w

  abbrev ReturnsBelow : ℕ → (List ℕ → Action W Unit) → Type 0
  ReturnsBelow n again =
      (rest : List ℕ) (c : Context W) → effort rest c.world < n → Returns (again rest) c

  effort-nap :
      (bytes : List ℕ) (k : ℕ) (c : Context W)
      → effort bytes (nap transport host k (account transport host k c)).world
        ≤ effort bytes c.world
  unfolding nap account
  effort-nap bytes k c = ground (arith, p.retries-sleep would_block_backoff c.world)

  after_write-Returns :
      (n : ℕ) (again : List ℕ → Action W Unit)
      → ReturnsBelow n again
      → (bytes : List ℕ) (outcome : TransferOutcome) (c : Context W) → effort bytes c.world < suc n
      → (outcome.completed ≡ 0 → is_retry outcome ≡ true → effort bytes c.world < n)
      → Returns (after_write transport host again bytes outcome) c
  unfolding after_write nap
  after_write-Returns n again ih bytes outcome c h retry =
      let k = outcome.completed in
      let c2 = nap transport host k (account transport host k c) in
      ground
        (arith, ih (drop k bytes) c2, effort-nap (drop k bytes) k c, length-drop k bytes, retry)

  write_round-Returns :
      (n : ℕ) (again : List ℕ → Action W Unit)
      → ReturnsBelow n again
      → (bytes : List ℕ) (c : Context W) → effort bytes c.world < suc n
      → Returns (write_round transport host again bytes) c
  unfolding write_round
  write_round-Returns n again ih bytes c h =
      let w1 = (host.is_cancelled c.world).1 in
      let (outcome, w2) = transport.write bytes w1 in
      ground (
        arith,
        after_write-Returns n again ih bytes outcome (record c { world = w2 }),
        p.retry bytes c.world,
        p.retries-write bytes w1,
        p.retries-is_cancelled c.world,
      )

  returns : (fuel : ℕ) → ReturnsBelow fuel (write_transport transport host fuel)
  unfolding write_transport
  returns zero bytes c h = absurd (omega arith)
  returns (suc fuel) bytes c h =
      write_round-Returns fuel (write_transport transport host fuel) (returns fuel) bytes c h

  -- With fuel above the bytes to write and the retries that the transport still asks for before it
  -- takes a byte or the session is cancelled, the loop ends: it returns or fails.
  pub write_transport-Returns :
      (fuel : ℕ) (bytes : List ℕ) (c : Context W)
      → length bytes + p.retries c.world < fuel
      → (out : Result Error Unit × Context W) × (write_transport transport host fuel bytes c
          ≡ some out)
  write_transport-Returns fuel bytes c h =
      elim (Option-cases (write_transport transport host fuel bytes c)) [
        | inl e ↦ absurd (returns fuel bytes c h e)
        | inr out ↦ out
      ]

-- ===== src/Session/Tx/Ending.antt =====
-- The TX worker (src/uart/session.rs, `tx_worker`) ends once its input does, or the session is
-- cancelled.
use glasgow_tool.Prelude.{
  ℕ, zero, suc, ◌+◌, ◌<◌, ◌≤◌, ◌≡◌, ◌≢◌, inl, inr, Bool, true, false, none, some, List, [], ◌∷◌,
  length, take, arith, Option-cases, Bool-cases, length-take, is_empty, not,
}
use glasgow_tool.Error.{Error, Result, ok, err, ErrorKind, IoError, Result-cases}
use glasgow_tool.Transport.{Transport}
use glasgow_tool.Session.{SessionMode, StopReason, application_queue_bytes}
use glasgow_tool.Session.Worker.{Host, Context, Action}
use glasgow_tool.Session.Tx.{
  transmitted, forward, after_chunk, after_error, after_read, tx_round, tx_loop, tx_finish, tx_body,
  tx_worker,
}
use glasgow_tool.Session.Tx.Laws.{Patience, given}
use glasgow_tool.Session.Tx.Returns.{write_transport-Returns}
use glasgow_tool.Session.Tx.Kept.{Falls, echo-Kept, forward-Kept}

-- A read after which the worker reads again, if nothing stops it: some bytes, or an interruption.
abbrev pub is_more : Result IoError (List ℕ) → Bool
is_more (ok bytes) = not (is_empty bytes)
is_more (err error) = elim error.kind [ ErrorKind.interrupted ↦ true | _ ↦ false ]

-- The input, or the time until the session is cancelled, is finite: `reads` is more than the reads
-- still to come. A read fills the buffer at most.
pub record Finite {W : Type 0} (transport : Transport W) (host : Host W)
    (p : Patience transport host) : Type 0 where
  pub reads : W → ℕ
  pub more :
      (n : ℕ) (w : W)
      → (host.is_cancelled w).0 ≡ false
      → is_more (host.read_input n (host.is_cancelled w).1).0 ≡ true
      → reads (host.read_input n (host.is_cancelled w).1).1 < reads w
  pub fits : (n : ℕ) (w : W) → length (given (host.read_input n w).0) ≤ n
  pub reads-Falls : Falls transport host reads
  pub retries-Falls : Falls transport host p.retries
  pub retries-read_input : (n : ℕ) (w : W) → p.retries (host.read_input n w).1 ≤ p.retries w

module _ {W : Type 0} (transport : Transport W) (host : Host W) (p : Patience transport host)
    (finite : Finite transport host p) where
  abbrev retries : Context W → ℕ
  retries c = p.retries c.world

  abbrev EndsBelow : ℕ → ℕ → Action W StopReason → Type 0
  EndsBelow rounds n again =
      (c : Context W)
      → finite.reads c.world < n
      → application_queue_bytes + retries c < rounds
      → again c ≢ none

  forward_returns :
      (rounds : ℕ) (mode : SessionMode) (bytes : List ℕ) (c : Context W)
      → length bytes + retries c < rounds
      → (r : Result Error Unit) × (d : Context W) × (forward transport host rounds mode bytes c
          ≡ some (r, d))
        × (finite.reads d.world ≤ finite.reads c.world)
        × (retries d ≤ retries c)
  unfolding forward
  forward_returns rounds mode bytes c h =
      let sent = take (transmitted transport host mode bytes) bytes in
      let (r1, d1, e1, fewer) =
        echo-Kept transport host p.retries finite.retries-Falls mode sent c in
      let ((r2, d2), e2) =
        write_transport-Returns transport host p rounds sent d1
          (omega (arith, fewer, length-take (transmitted transport host mode bytes) bytes)) in
      elim (Option-cases (forward transport host rounds mode bytes c)) [
        | inl n ↦ absurd (ground (arith, n, e1, e2))
        | inr ((r, d), e) ↦ (
          r,
          d,
          e,
          forward-Kept transport host finite.reads finite.reads-Falls rounds mode bytes c d r e,
          forward-Kept transport host p.retries finite.retries-Falls rounds mode bytes c d r e,
        )
      ]

  after_read-ne-none :
      (rounds n : ℕ) (again : Action W StopReason)
      → EndsBelow rounds n again
      → (mode : SessionMode) (chunk : Result IoError (List ℕ)) (c : Context W)
      → (is_more chunk ≡ true → finite.reads c.world < n)
      → length (given chunk) ≤ application_queue_bytes
      → application_queue_bytes + retries c < rounds
      → after_read transport host again rounds mode chunk c ≢ none
  unfolding after_read after_error after_chunk
  after_read-ne-none rounds n again ih mode (err error) c more small h = ground (arith, ih c)
  after_read-ne-none rounds n again ih mode (ok []) c more small h = ground arith
  after_read-ne-none rounds n again ih mode (ok (b ∷ bytes)) c more small h =
      let (r, d, e, fewer, calmer) =
        forward_returns rounds mode (b ∷ bytes) c (omega (arith, small, h)) in
      ground (arith, e, ih d, fewer, calmer)

  tx_round-ne-none :
      (rounds n : ℕ) (again : Action W StopReason)
      → EndsBelow rounds n again
      → (mode : SessionMode) → EndsBelow rounds (suc n) (tx_round transport host again rounds mode)
  unfolding tx_round
  tx_round-ne-none rounds n again ih mode c h calm =
      let w1 = (host.is_cancelled c.world).1 in
      let (chunk, w2) = host.read_input application_queue_bytes w1 in
      elim (Bool-cases (host.is_cancelled c.world).0) [
        | inl t ↦ ground (arith, t)
        | inr t ↦
            let next : after_read transport host again rounds mode chunk (record c { world = w2 })
                ≢ none =
              after_read-ne-none rounds n again ih mode chunk (record c { world = w2 })
                (λ m. omega (arith, finite.more application_queue_bytes c.world t m))
                (finite.fits application_queue_bytes w1)
                (omega (
                  arith,
                  finite.retries-read_input application_queue_bytes w1,
                  finite.retries-Falls.fall-is_cancelled c.world,
                )) in
            ground (arith, t, next)
      ]

  tx_loop-ne-none :
      (rounds fuel : ℕ) (mode : SessionMode)
      → EndsBelow rounds fuel (tx_loop transport host rounds fuel mode)
  unfolding tx_loop
  tx_loop-ne-none rounds zero mode c h calm = absurd (omega arith)
  tx_loop-ne-none rounds (suc fuel) mode c h calm =
      tx_round-ne-none rounds fuel (tx_loop transport host rounds fuel mode)
        (tx_loop-ne-none rounds fuel mode) mode c h calm

  tx_finish-ne-none :
      (timeout : ℕ) (reason : StopReason) (c : Context W)
      → tx_finish transport host timeout reason c ≢ none
  unfolding tx_finish
  tx_finish-ne-none timeout reason c = ground arith

  -- The TX worker ends when its input does or the session is cancelled: as many reads as are still to
  -- come, and one more, are enough, each with a write for every byte of a full buffer and for every
  -- retry that the transport still asks for before it takes a byte or the session is cancelled, and
  -- one more.
  pub tx_worker-Returns :
      (rounds fuel : ℕ) (mode : SessionMode) (timeout : ℕ) (c : Context W)
      → finite.reads c.world < fuel
      → application_queue_bytes + p.retries c.world < rounds
      → (d : Context W) × (tx_worker transport host rounds fuel mode timeout c ≡ some d)
  unfolding tx_worker tx_body
  tx_worker-Returns rounds fuel mode timeout c h calm =
      elim (Option-cases (tx_worker transport host rounds fuel mode timeout c)) [
        | inr (d, e) ↦ (d, e)
        | inl n ↦ absurd (elim (Option-cases (tx_loop transport host rounds fuel mode c)) [
          | inl m ↦ tx_loop-ne-none rounds fuel mode c h calm m
          | inr ((r, d), m) ↦ elim (Result-cases r) [
            | inl (error, a) ↦ ground (arith, n, m, a)
            | inr (reason, a) ↦ ground (arith, n, m, a, tx_finish-ne-none timeout reason d)
          ]
        ])
      ]

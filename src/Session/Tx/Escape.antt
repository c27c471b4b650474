-- ===== src/Session/Tx/Escape.antt =====
-- The escape of a console session (src/uart/session.rs, `tx_worker`): Ctrl-] is never sent.
use glasgow_tool.Prelude.{
  ℕ, zero, suc, ◌^◌, ◌<◌, ◌≡◌, ◌≢◌, refl, sym, ap, subst, ◌∙◌, inl, inr, false, none, some, List,
  [], ◌∷◌, ◌++◌, take, arith, append-nil, append_assoc, Option-cases, Bool-cases, position, ◌==◌,
  All,
}
use glasgow_tool.Error.{Error, Result, ok, err, IoError}
use glasgow_tool.Transport.{Transport}
use glasgow_tool.Session.{console, StopReason, console_escape, application_queue_bytes}
use glasgow_tool.Session.Worker.{Host, Context, Action}
use glasgow_tool.Session.Tx.{
  transmitted, escape_index, after_read, tx_round, tx_loop, tx_worker, mark_completed,
}
use glasgow_tool.Session.Tx.Laws.{Views, TxLaws}
use glasgow_tool.Session.Tx.Sending.{forward-Sent}
use glasgow_tool.Session.Tx.Looping.{tx_round_cases, after_chunk_cases, after_error_cases}
use glasgow_tool.Session.Tx.Relay.{tx_body_cases, tx_worker_cases}

abbrev pub IsPlain : List ℕ → Type 0
IsPlain = All (λ b. b ≢ console_escape)

IsPlain-take : (n : ℕ) (bytes : List ℕ) → IsPlain bytes → IsPlain (take n bytes)
IsPlain-take zero bytes h = tt
IsPlain-take (suc n) [] h = tt
IsPlain-take (suc n) (b ∷ bytes) h = (h.0, IsPlain-take n bytes h.1)

IsPlain-append : (xs ys : List ℕ) → IsPlain xs → IsPlain ys → IsPlain (xs ++ ys)
IsPlain-append [] ys h k = k
IsPlain-append (x ∷ xs) ys h k = (h.0, IsPlain-append xs ys h.1 k)

other_byte : (b : ℕ) → (b == console_escape) ≡ false → b ≢ console_escape
other_byte b e same = ground (arith, e, same)

IsPlain-none : (bytes : List ℕ) → position (λ b. b == console_escape) bytes ≡ none → IsPlain bytes
IsPlain-none [] e = tt
IsPlain-none (b ∷ bytes) e = elim (Bool-cases (b == console_escape)) [
  | inl t ↦ absurd (ground (arith, t))
  | inr t ↦ elim (Option-cases (position (λ b. b == console_escape) bytes)) [
    | inl n ↦ (other_byte b t, IsPlain-none bytes n)
    | inr (i, n) ↦ absurd (ground (arith, t, n))
  ]
]

IsPlain-before :
    (bytes : List ℕ) (index : ℕ)
    → position (λ b. b == console_escape) bytes ≡ some index
    → IsPlain (take index bytes)
IsPlain-before bytes zero e = tt
IsPlain-before [] (suc index) e = tt
IsPlain-before (b ∷ bytes) (suc index) e = elim (Bool-cases (b == console_escape)) [
  | inl t ↦ absurd (ground (arith, t))
  | inr t ↦ elim (Option-cases (position (λ b. b == console_escape) bytes)) [
    | inl n ↦ absurd (ground (arith, t, n))
    | inr (i, n) ↦ (other_byte b t, IsPlain-before bytes index (ground (arith, t, n)))
  ]
]

module _ {W : Type 0} (transport : Transport W) (host : Host W) (v : Views W)
    (laws : TxLaws transport host v) where
  transmitted-IsPlain :
      (bytes : List ℕ) → IsPlain (take (transmitted transport host console bytes) bytes)
  unfolding transmitted escape_index
  transmitted-IsPlain bytes = elim (Option-cases (position (λ b. b == console_escape) bytes)) [
    | inl n ↦ IsPlain-take (transmitted transport host console bytes) bytes (IsPlain-none bytes n)
    | inr (index, n) ↦
        let e : transmitted transport host console bytes ≡ index = ground (arith, n) in
        subst (λ k. IsPlain (take k bytes)) (sym e) (IsPlain-before bytes index n)
  ]

  -- What went out since `wire` holds no Ctrl-].
  abbrev pub SentPlain : List ℕ → Context W → Type 0
  SentPlain wire d = (sent : List ℕ) × (v.wire d.world ≡ wire ++ sent) × IsPlain sent

  abbrev SendsPlain : Action W StopReason → Type 0
  SendsPlain again =
      (c d : Context W) (r : Result Error StopReason)
      → c.statistics.tx_accepted < 2 ^ 64
      → again c ≡ some (r, d)
      → SentPlain (v.wire c.world) d

  SentPlain-none : (wire : List ℕ) (d : Context W) → v.wire d.world ≡ wire → SentPlain wire d
  SentPlain-none wire d e = ([], e ∙ sym (append-nil wire), tt)

  SentPlain-add :
      (wire first : List ℕ) (c d : Context W)
      → v.wire c.world ≡ wire ++ first
      → IsPlain first
      → SentPlain (v.wire c.world) d
      → SentPlain wire d
  SentPlain-add wire first c d e plain (sent, wired, more) = (
    first ++ sent,
    wired ∙ ap (λ l. l ++ sent) e ∙ append_assoc wire first sent,
    IsPlain-append first sent plain more,
  )

  after_read-SendsPlain :
      (again : Action W StopReason)
      → SendsPlain again
      → (rounds : ℕ) (chunk : Result IoError (List ℕ))
      → SendsPlain (after_read transport host again rounds console chunk)
  after_read-SendsPlain again ih rounds (err error) c d r small e =
      elim (after_error_cases transport host v laws again rounds console error c d r e) [
        | inl go ↦ ih c d r small go
        | inr (more, same) ↦ rw same (SentPlain-none (v.wire c.world) c refl)
      ]
  after_read-SendsPlain again ih rounds (ok bytes) c d r small e =
      elim (after_chunk_cases transport host v laws again rounds console bytes c d r e) [
        | inl (empty, reason, same) ↦ rw same (SentPlain-none (v.wire c.world) c refl)
        | inr (r1, d1, f, next) ↦
            let whole = take (transmitted transport host console bytes) bytes in
            let s = forward-Sent transport host v laws rounds console bytes c d1 r1 small f in
            let plain = IsPlain-take s.taken whole (transmitted-IsPlain bytes) in
            elim next [
              | inl (more, same) ↦ rw same (take s.taken whole, s.wired, plain)
              | inr (good, none_left, go) ↦
                  SentPlain-add (v.wire c.world) (take s.taken whole) d1 d s.wired plain
                    (ih d1 d r s.small go)
            ]
      ]

  tx_round-SendsPlain :
      (again : Action W StopReason)
      → SendsPlain again
      → (rounds : ℕ) → SendsPlain (tx_round transport host again rounds console)
  tx_round-SendsPlain again ih rounds c d r small e =
      let w1 = (host.is_cancelled c.world).1 in
      let (chunk, w2) = host.read_input application_queue_bytes w1 in
      let quiet = laws.quiet-is_cancelled c.world in
      elim (tx_round_cases transport host v laws again rounds console c d r e) [
        | inl (is_set, reason, same) ↦
            rw same (SentPlain-none (v.wire c.world) (record c { world = w1 }) quiet.same_wire)
        | inr (unset, h) ↦
            let read = laws.wire-read_input application_queue_bytes w1 ∙ quiet.same_wire in
            SentPlain-add (v.wire c.world) [] (record c { world = w2 }) d
              (read ∙ sym (append-nil (v.wire c.world))) tt
              (after_read-SendsPlain again ih rounds chunk (record c { world = w2 }) d r small h)
      ]

  tx_loop-SendsPlain : (rounds fuel : ℕ) → SendsPlain (tx_loop transport host rounds fuel console)
  unfolding tx_loop
  tx_loop-SendsPlain rounds zero c d r small e = cc
  tx_loop-SendsPlain rounds (suc fuel) c d r small e =
      tx_round-SendsPlain (tx_loop transport host rounds fuel console)
        (tx_loop-SendsPlain rounds fuel) rounds c d r small e

  -- In console mode the TX worker never sends Ctrl-], whatever is read and however the transport
  -- splits the writes.
  pub tx_worker-SentPlain :
      (rounds fuel timeout : ℕ) (c d : Context W)
      → c.statistics.tx_accepted < 2 ^ 64
      → tx_worker transport host rounds fuel console timeout c ≡ some d
      → SentPlain (v.wire c.world) d
  unfolding mark_completed
  tx_worker-SentPlain rounds fuel timeout c d small e =
      let (r, d2, body, ended) =
        tx_worker_cases transport host v laws rounds fuel console timeout c d e in
      let (r1, d1, loop, next) =
        tx_body_cases transport host v laws rounds fuel console timeout c d2 r body in
      let (sent, wired, plain) = tx_loop-SendsPlain rounds fuel c d1 r1 small loop in
      let drained = (laws.quiet-drain timeout d1.world).same_wire ∙ wired in
      rw ended (
        sent,
        elim next [
          | inl (reason, same, more) ↦ rw same wired
          | inr (inl (more, same)) ↦ rw same drained
          | inr (inr (reason, same)) ↦ rw same drained
        ],
        plain,
      )

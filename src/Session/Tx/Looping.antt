-- ===== src/Session/Tx/Looping.antt =====
-- The loop of `tx_worker` (src/uart/session.rs): a chunk is sent, then the next one.
use glasgow_tool.Prelude.{
  ℕ, zero, suc, ◌^◌, ◌≤◌, ◌<◌, ◌≡◌, ◌≢◌, refl, sym, ap, ◌∙◌, ◌⊎◌, inl, inr, true, false, none, some,
  List, [], ◌∷◌, ◌++◌, length, take, arith, append-nil, Option-cases, length-take, take-all,
}
use glasgow_tool.Error.{Error, Result, ok, err, Result-cases, IoError}
use glasgow_tool.Transport.{Transport}
use glasgow_tool.Session.{SessionMode, StopReason, rx_idle, cancelled, application_queue_bytes}
use glasgow_tool.Session.Worker.{Host, Context, Action}
use glasgow_tool.Session.Tx.{
  forward, transmitted, escape_index, after_chunk, after_error, after_read, tx_round, tx_loop,
}
use glasgow_tool.Session.Tx.Laws.{Views, TxLaws, given}
use glasgow_tool.Session.Tx.Sending.{forward-Sent}
use glasgow_tool.Session.Tx.Relayed.{Relayed, take_of_take, Relayed-add, Relayed-part, Relayed-none}

module _ {W : Type 0} (transport : Transport W) (host : Host W) (v : Views W)
    (laws : TxLaws transport host v) where
  abbrev pub Relays : Action W StopReason → Type 0
  Relays again =
      (c d : Context W) (r : Result Error StopReason)
      → c.statistics.tx_accepted < 2 ^ 64
      → again c ≡ some (r, d)
      → Relayed v (v.wire c.world) (v.consumed c.world) r d

  -- Once cancelled, nothing more is read or sent.
  abbrev Stops : Action W StopReason → Type 0
  Stops again =
      (c d : Context W) (r : Result Error StopReason)
      → v.stopped c.world ≡ true
      → again c ≡ some (r, d)
      → (r ≡ ok cancelled)
        × (v.wire d.world ≡ v.wire c.world)
        × (v.consumed d.world ≡ v.consumed c.world)

  pub tx_round_cases :
      (again : Action W StopReason) (rounds : ℕ) (mode : SessionMode) (c d : Context W)
      (r : Result Error StopReason)
      → tx_round transport host again rounds mode c ≡ some (r, d)
      → let w1 = (host.is_cancelled c.world).1 in
        let (chunk, w2) = host.read_input application_queue_bytes w1 in
        (((host.is_cancelled c.world).0 ≡ true)
          × (r ≡ ok cancelled)
          × (d ≡ record c { world = w1 }))
        ⊎ (((host.is_cancelled c.world).0 ≡ false)
            × (after_read transport host again rounds mode chunk (record c { world = w2 })
                ≡ some (r, d)))
  unfolding tx_round
  tx_round_cases again rounds mode c d r e = ground arith

  tx_round-Stops :
      (again : Action W StopReason) (rounds : ℕ) (mode : SessionMode)
      → Stops (tx_round transport host again rounds mode)
  tx_round-Stops again rounds mode c d r stop e =
      let quiet = laws.quiet-is_cancelled c.world in
      elim (tx_round_cases again rounds mode c d r e) [
        | inl (is_set, reason, same) ↦ rw (reason, same) (refl, quiet.same_wire, quiet.same_input)
        | inr (unset, h) ↦ absurd (ground (arith, unset, laws.is_cancelled-stopped c.world stop))
      ]

  tx_loop-Stops :
      (rounds fuel : ℕ) (mode : SessionMode) → Stops (tx_loop transport host rounds fuel mode)
  unfolding tx_loop
  tx_loop-Stops rounds zero mode c d r stop e = cc
  tx_loop-Stops rounds (suc fuel) mode c d r stop e =
      tx_round-Stops (tx_loop transport host rounds fuel mode) rounds mode c d r stop e

  -- What follows a chunk: the end of the input; an error or an escape; or the next round.
  pub after_chunk_cases :
      (again : Action W StopReason) (rounds : ℕ) (mode : SessionMode) (bytes : List ℕ)
      (c d : Context W) (r : Result Error StopReason)
      → after_read transport host again rounds mode (ok bytes) c ≡ some (r, d)
      → ((bytes ≡ []) × (r ≡ ok rx_idle) × (d ≡ c))
        ⊎ ((r1 : Result Error Unit) × (d1 : Context W) × (forward transport host rounds mode bytes c
              ≡ some (r1, d1))
            × ((r ≢ ok rx_idle) × (d ≡ d1)
                ⊎ (r1 ≡ ok tt)
                  × (escape_index transport host mode bytes ≡ none)
                  × (again d1 ≡ some (r, d))))
  unfolding after_read after_chunk
  after_chunk_cases again rounds mode [] c d r e = inl (ground arith)
  after_chunk_cases again rounds mode (b ∷ bytes) c d r e =
      elim (Option-cases (forward transport host rounds mode (b ∷ bytes) c)) [
        | inl n ↦ absurd (ground (arith, n))
        | inr ((r1, d1), n) ↦ elim (Result-cases r1) [
          | inl (error, a) ↦ inr (r1, d1, n, inl (ground (arith, n, a)))
          | inr (x, a) ↦ elim (Option-cases (escape_index transport host mode (b ∷ bytes))) [
            | inl m ↦ inr (r1, d1, n, inr (ground (arith, n, a, m)))
            | inr (index, m) ↦ inr (r1, d1, n, inl (ground (arith, n, a, m)))
          ]
        ]
      ]

  sent_whole :
      (mode : SessionMode) (bytes : List ℕ)
      → escape_index transport host mode bytes ≡ none
      → take (transmitted transport host mode bytes) bytes ≡ bytes
  unfolding transmitted
  sent_whole mode bytes e =
      let all : transmitted transport host mode bytes ≡ length bytes = ground arith in
      take-all (transmitted transport host mode bytes) bytes (omega arith)

  pub after_error_cases :
      (again : Action W StopReason) (rounds : ℕ) (mode : SessionMode) (error : IoError)
      (c d : Context W) (r : Result Error StopReason)
      → after_read transport host again rounds mode (err error) c ≡ some (r, d)
      → (again c ≡ some (r, d)) ⊎ ((r ≢ ok rx_idle) × (d ≡ c))
  unfolding after_read after_error
  after_error_cases again rounds mode error c d r e = ground arith

  after_read-Relayed :
      (again : Action W StopReason)
      → Relays again
      → Stops again
      → (rounds : ℕ) (mode : SessionMode) (chunk : Result IoError (List ℕ)) (wire input : List ℕ)
        (c d : Context W) (r : Result Error StopReason)
      → c.statistics.tx_accepted < 2 ^ 64
      → v.wire c.world ≡ wire
      → v.consumed c.world ≡ input ++ given chunk
      → after_read transport host again rounds mode chunk c ≡ some (r, d)
      → Relayed v wire input r d
  after_read-Relayed again relays stops rounds mode (err error) wire input c d r small w i e =
      let read = i ∙ append-nil input in
      elim (after_error_cases again rounds mode error c d r e) [
        | inl go ↦
            Relayed-add v [] wire input (v.wire c.world) (v.consumed c.world) r d
              (w ∙ sym (append-nil wire)) i (relays c d r small go)
        | inr (more, same) ↦ rw same (Relayed-none v wire input r c read w)
      ]
  after_read-Relayed again relays stops rounds mode (ok bytes) wire input c d r small w i e =
      elim (after_chunk_cases again rounds mode bytes c d r e) [
        | inl (empty, reason, same) ↦
            rw same
              (Relayed-none v wire input r c (i ∙ ap (λ l. input ++ l) empty ∙ append-nil input) w)
        | inr (r1, d1, f, next) ↦
            let whole = take (transmitted transport host mode bytes) bytes in
            let s = forward-Sent transport host v laws rounds mode bytes c d1 r1 small f in
            let n = s.taken in
            let read = s.same_input ∙ i in
            let wired = s.wired ∙ ap (λ l. l ++ take n whole) w in
            let cut = take_of_take n (transmitted transport host mode bytes) bytes s.fits in
            let fits : n ≤ length bytes =
              omega (arith, s.fits, length-take (transmitted transport host mode bytes) bytes) in
            let part = wired ∙ ap (λ l. wire ++ l) cut in
            elim next [
              | inl (more, same) ↦
                  rw same (Relayed-part v n bytes wire input r d1 more fits read part)
              | inr (good, plain, go) ↦ elim (s.all_or_stopped good) [
                | inl all ↦
                    let out = sent_whole mode bytes plain in
                    Relayed-add v bytes wire input (v.wire d1.world) (v.consumed d1.world) r d
                      (wired ∙ ap (λ l. wire ++ l) (take-all n whole (omega (arith, all)) ∙ out))
                      read (relays d1 d r s.small go)
                | inr stop ↦
                    let (reason, same_wire, same_input) = stops d1 d r stop go in
                    Relayed-part v n bytes wire input r d (ground (arith, reason)) fits
                      (same_input ∙ read) (same_wire ∙ part)
              ]
            ]
      ]

  tx_round-Relayed :
      (again : Action W StopReason)
      → Relays again
      → Stops again
      → (rounds : ℕ) (mode : SessionMode) → Relays (tx_round transport host again rounds mode)
  tx_round-Relayed again relays stops rounds mode c d r small e =
      let w1 = (host.is_cancelled c.world).1 in
      let (chunk, w2) = host.read_input application_queue_bytes w1 in
      let quiet = laws.quiet-is_cancelled c.world in
      elim (tx_round_cases again rounds mode c d r e) [
        | inl (is_set, reason, same) ↦
            rw same
              (Relayed-none v _ _ r (record c { world = w1 }) quiet.same_input quiet.same_wire)
        | inr (unset, h) ↦
            after_read-Relayed again relays stops rounds mode chunk (v.wire c.world)
              (v.consumed c.world) (record c { world = w2 }) d r small
              (laws.wire-read_input application_queue_bytes w1 ∙ quiet.same_wire)
              (laws.input-read_input application_queue_bytes w1
                ∙ ap (λ l. l ++ given chunk) quiet.same_input)
              h
      ]

  pub tx_loop-Relayed :
      (rounds fuel : ℕ) (mode : SessionMode) → Relays (tx_loop transport host rounds fuel mode)
  unfolding tx_loop
  tx_loop-Relayed rounds zero mode c d r small e = cc
  tx_loop-Relayed rounds (suc fuel) mode c d r small e =
      tx_round-Relayed (tx_loop transport host rounds fuel mode) (tx_loop-Relayed rounds fuel mode)
        (tx_loop-Stops rounds fuel mode) rounds mode c d r small e

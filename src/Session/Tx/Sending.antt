-- ===== src/Session/Tx/Sending.antt =====
-- What forwarding one chunk of the input does to the wire (src/uart/session.rs).
use glasgow_tool.Prelude.{
  ℕ, ◌^◌, ◌≤◌, ◌<◌, ◌≡◌, ◌≢◌, sym, ap, ◌∙◌, ◌⊎◌, inl, inr, true, some, List, ◌++◌, length, take,
  arith, append-nil, Option-cases,
}
use glasgow_tool.Error.{Error, Result, ok, Result-cases}
use glasgow_tool.Transport.{Transport}
use glasgow_tool.Session.{SessionMode, console, stream}
use glasgow_tool.Session.Worker.{Host, Context}
use glasgow_tool.Session.Tx.{echo, forward, transmitted, write_transport}
use glasgow_tool.Session.Tx.Laws.{Views, TxLaws}
use glasgow_tool.Session.Tx.Wire.{write_transport-Wrote}

-- Of `bytes`, a prefix went out between `c` and `d`: all of it if the result is `ok`, unless the
-- session is cancelled.
pub record Sent {W : Type 0} (v : Views W) (bytes : List ℕ) (c : Context W) (r : Result Error Unit)
    (d : Context W) : Type 0 where
  pub taken : ℕ
  pub fits : taken ≤ length bytes
  pub wired : v.wire d.world ≡ v.wire c.world ++ take taken bytes
  pub same_input : v.consumed d.world ≡ v.consumed c.world
  pub small : d.statistics.tx_accepted < 2 ^ 64
  pub all_or_stopped : r ≡ ok tt → (taken ≡ length bytes) ⊎ (v.stopped d.world ≡ true)

module _ {W : Type 0} (transport : Transport W) (host : Host W) (v : Views W)
    (laws : TxLaws transport host v) where
  -- An echo moves no byte of the session.
  echo_quiet :
      (mode : SessionMode) (bytes : List ℕ) (c d : Context W) (r : Result Error Unit)
      → echo transport host mode bytes c ≡ some (r, d)
      → (v.wire d.world ≡ v.wire c.world)
        × (v.consumed d.world ≡ v.consumed c.world)
        × (d.statistics ≡ c.statistics)
  unfolding echo
  echo_quiet stream bytes c d r e = ground arith
  echo_quiet console bytes c d r e =
      let quiet = laws.quiet-output bytes c.world in
      ground (arith, quiet.same_wire, quiet.same_input)

  forward_cases :
      (rounds : ℕ) (mode : SessionMode) (bytes : List ℕ) (c d : Context W) (r : Result Error Unit)
      → forward transport host rounds mode bytes c ≡ some (r, d)
      → ((r ≢ ok tt)
          × (echo transport host mode (take (transmitted transport host mode bytes) bytes) c
              ≡ some (r, d)))
        ⊎ ((c1 : Context W) × (d1 : Context W) × (echo transport host mode
                (take (transmitted transport host mode bytes) bytes)
                c
              ≡ some (ok tt, c1))
            × (write_transport transport host rounds
                  (take (transmitted transport host mode bytes) bytes)
                  c1
                ≡ some (r, d1))
            × ((d ≡ d1) × (r ≢ ok tt) ⊎ (d ≡ record d1 { world = transport.submit_tx d1.world })))
  unfolding forward
  forward_cases rounds mode bytes c d r e =
      let sent = take (transmitted transport host mode bytes) bytes in
      elim (Option-cases (echo transport host mode sent c)) [
        | inl n ↦ absurd (ground (arith, n))
        | inr ((r1, c1), n) ↦ elim (Result-cases r1) [
          | inl (error, a) ↦ inl (ground (arith, n, a))
          | inr (x, a) ↦ elim (Option-cases (write_transport transport host rounds sent c1)) [
            | inl m ↦ absurd (ground (arith, n, a, m))
            | inr ((r2, d1), m) ↦ elim (Result-cases r2) [
              | inl (error, b) ↦ inr (
                c1,
                d1,
                ground (arith, n, a),
                ground (arith, n, a, m, b),
                inl (ground (arith, n, a, m, b)),
              )
              | inr (y, b) ↦ inr (
                c1,
                d1,
                ground (arith, n, a),
                ground (arith, n, a, m, b),
                inr (ground (arith, n, a, m, b)),
              )
            ]
          ]
        ]
      ]

  pub forward-Sent :
      (rounds : ℕ) (mode : SessionMode) (bytes : List ℕ) (c d : Context W) (r : Result Error Unit)
      → c.statistics.tx_accepted < 2 ^ 64
      → forward transport host rounds mode bytes c ≡ some (r, d)
      → Sent v (take (transmitted transport host mode bytes) bytes) c r d
  forward-Sent rounds mode bytes c d r small e =
      let sent = take (transmitted transport host mode bytes) bytes in
      elim (forward_cases rounds mode bytes c d r e) [
        | inl (bad, h) ↦
            let (wire, input, statistics) = echo_quiet mode sent c d r h in
            record {
              taken = 0;
              fits = omega arith;
              wired = wire ∙ sym (append-nil _);
              same_input = input;
              small = rw statistics small;
              all_or_stopped = λ k. absurd (bad k);
            }
        | inr (c1, d1, h, w, end) ↦
            let (wire, input, statistics) = echo_quiet mode sent c c1 (ok tt) h in
            let wrote =
              write_transport-Wrote transport host v laws rounds sent c1 d1 r (rw statistics small)
                w in
            let last = laws.quiet-submit_tx d1.world in
            let wired = wrote.wired ∙ ap (λ l. l ++ take wrote.taken sent) wire in
            let same = wrote.same_input ∙ input in
            let bound : d1.statistics.tx_accepted < 2 ^ 64 = omega (arith, wrote.counted) in
            elim end [
              | inl (same_d, bad) ↦ rw same_d (record {
                taken = wrote.taken;
                fits = wrote.fits;
                wired = wired;
                same_input = same;
                small = bound;
                all_or_stopped = wrote.all_or_cancelled;
              })
              | inr submitted ↦ rw submitted (record {
                taken = wrote.taken;
                fits = wrote.fits;
                wired = last.same_wire ∙ wired;
                same_input = last.same_input ∙ same;
                small = bound;
                all_or_stopped = λ k. elim (wrote.all_or_cancelled k) [
                  | inl all ↦ inl all
                  | inr stop ↦ inr (last.sticky stop)
                ];
              })
            ]
      ]

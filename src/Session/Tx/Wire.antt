-- ===== src/Session/Tx/Wire.antt =====
-- `write_transport` of src/uart/session.rs, the wire and the counters.
use glasgow_tool.Prelude.{
  ℕ, zero, suc, ◌+◌, ◌%◌, ◌^◌, ◌≤◌, ◌<◌, ◌≡◌, refl, sym, ap, subst, ◌∙◌, ◌⊎◌, ◌≢◌, inl, inr, true,
  some, List, [], ◌∷◌, ◌++◌, length, take, drop, arith, append-nil, append_assoc, length-drop,
  take-add, is_empty,
}
use glasgow_tool.Error.{Error, Result, ok}
use glasgow_tool.Transport.{Transport, TransferOutcome}
use glasgow_tool.Session.{would_block_backoff}
use glasgow_tool.Session.Worker.{Host, Context, Action}
use glasgow_tool.Session.Tx.{account, nap, after_write, write_round, write_transport}
use glasgow_tool.Session.Tx.Laws.{Views, Quiet, TxLaws}

-- From a state with `wire` out, `input` read and two counters, `bytes` were to be written; the write
-- ended with `r` in `d`.
pub record Wrote {W : Type 0} (v : Views W) (bytes wire input : List ℕ) (accepted completed : ℕ)
    (r : Result Error Unit) (d : Context W) : Type 0 where
  pub taken : ℕ
  pub fits : taken ≤ length bytes
  pub wired : v.wire d.world ≡ wire ++ take taken bytes
  pub same_input : v.consumed d.world ≡ input
  pub counted : d.statistics.tx_accepted ≡ (accepted + taken) % 2 ^ 64
  pub same_completed : d.statistics.tx_completed ≡ completed
  pub all_or_cancelled : r ≡ ok tt → (taken ≡ length bytes) ⊎ (v.stopped d.world ≡ true)

module _ {W : Type 0} (v : Views W) where
  -- A part written and then the rest is the whole.
  Wrote-add :
      (n : ℕ) (bytes wire input : List ℕ) (accepted completed : ℕ) (c d : Context W)
      (r : Result Error Unit)
      → n ≤ length bytes
      → v.wire c.world ≡ wire ++ take n bytes
      → v.consumed c.world ≡ input
      → c.statistics.tx_accepted ≡ (accepted + n) % 2 ^ 64
      → c.statistics.tx_completed ≡ completed
      → Wrote v
          (drop n bytes)
          (v.wire c.world)
          (v.consumed c.world)
          c.statistics.tx_accepted
          c.statistics.tx_completed
          r
          d
      → Wrote v bytes wire input accepted completed r d
  Wrote-add n bytes wire input accepted completed c d r fits w i a k h = record {
    taken = n + h.taken;
    fits = omega (arith, h.fits, length-drop n bytes);
    wired =
        h.wired
        ∙ ap (λ l. l ++ take h.taken (drop n bytes)) w
        ∙ append_assoc wire _ _
        ∙ ap (λ l. wire ++ l) (sym (take-add n h.taken bytes));
    same_input = h.same_input ∙ i;
    counted = omega (arith, h.counted);
    same_completed = h.same_completed ∙ k;
    all_or_cancelled = λ e. elim (h.all_or_cancelled e) [
      | inl all ↦ inl (omega (arith, length-drop n bytes))
      | inr stop ↦ inr stop
    ];
  }

  -- A part written before an error is that part.
  Wrote-err :
      (n : ℕ) (bytes wire input : List ℕ) (accepted completed : ℕ) (r : Result Error Unit)
      (d : Context W)
      → r ≢ ok tt
      → n ≤ length bytes
      → v.wire d.world ≡ wire ++ take n bytes
      → v.consumed d.world ≡ input
      → d.statistics.tx_accepted ≡ (accepted + n) % 2 ^ 64
      → d.statistics.tx_completed ≡ completed
      → Wrote v bytes wire input accepted completed r d
  Wrote-err n bytes wire input accepted completed r d bad fits w i a k = record {
    taken = n;
    fits = fits;
    wired = w;
    same_input = i;
    counted = a;
    same_completed = k;
    all_or_cancelled = λ e. absurd (bad e);
  }

module _ {W : Type 0} (transport : Transport W) (host : Host W) (v : Views W) where
  account_fields :
      (n : ℕ) (c : Context W)
      → c.statistics.tx_accepted < 2 ^ 64
      → ((account transport host n c).statistics.tx_accepted
          ≡ (c.statistics.tx_accepted + n) % 2 ^ 64)
        × ((account transport host n c).statistics.tx_completed ≡ c.statistics.tx_completed)
        × ((account transport host n c).world ≡ c.world)
  unfolding account
  account_fields n c small = ground arith

  nap_fields :
      (laws : TxLaws transport host v) (n : ℕ) (c : Context W)
      → ((nap transport host n c).statistics ≡ c.statistics)
        × (v.wire (nap transport host n c).world ≡ v.wire c.world)
        × (v.consumed (nap transport host n c).world ≡ v.consumed c.world)
  unfolding nap
  nap_fields laws n c = ground (arith, laws.quiet-sleep would_block_backoff c.world)

  abbrev Continues : (List ℕ → Action W Unit) → Type 0
  Continues again =
      (rest : List ℕ) (c d : Context W) (r : Result Error Unit)
      → c.statistics.tx_accepted < 2 ^ 64
      → again rest c ≡ some (r, d)
      → Wrote v rest (v.wire c.world) (v.consumed c.world) c.statistics.tx_accepted
          c.statistics.tx_completed r d

  -- A write that did not over-report ends with an error, or goes on after the bytes taken.
  after_write_cases :
      (again : List ℕ → Action W Unit) (bytes : List ℕ) (outcome : TransferOutcome)
      (c d : Context W) (r : Result Error Unit)
      → outcome.completed ≤ length bytes
      → after_write transport host again bytes outcome c ≡ some (r, d)
      → ((r ≢ ok tt) × (d ≡ account transport host outcome.completed c))
        ⊎ (again
              (drop outcome.completed bytes)
              (nap transport host outcome.completed (account transport host outcome.completed c))
            ≡ some (r, d))
  unfolding after_write nap
  after_write_cases again bytes outcome c d r fits e = ground arith

  after_write-Wrote :
      (laws : TxLaws transport host v) (again : List ℕ → Action W Unit)
      → Continues again
      → (bytes : List ℕ) (outcome : TransferOutcome) (wire : List ℕ) (c d : Context W)
        (r : Result Error Unit)
      → outcome.completed ≤ length bytes
      → v.wire c.world ≡ wire ++ take outcome.completed bytes
      → c.statistics.tx_accepted < 2 ^ 64
      → after_write transport host again bytes outcome c ≡ some (r, d)
      → Wrote v bytes wire
          (v.consumed c.world)
          c.statistics.tx_accepted
          c.statistics.tx_completed
          r
          d
  after_write-Wrote laws again ih bytes outcome wire c d r fits w small e =
      let n = outcome.completed in
      let c1 = account transport host n c in
      let acc = account_fields n c small in
      let nap' = nap_fields laws n c1 in
      elim (after_write_cases again bytes outcome c d r fits e) [
        | inl (bad, de) ↦ rw de (
            Wrote-err v n bytes wire _ _ _ r c1 bad fits (rw acc.2 w) (ap v.consumed acc.2) acc.0
              acc.1)
        | inr go ↦
            let c2 = nap transport host n c1 in
            Wrote-add v n bytes wire _ _ _ c2 d r fits (nap'.1 ∙ ap v.wire acc.2 ∙ w)
              (nap'.2 ∙ ap v.consumed acc.2) (ap (λ s. s.tx_accepted) nap'.0 ∙ acc.0)
              (ap (λ s. s.tx_completed) nap'.0 ∙ acc.1)
              (ih (drop n bytes) c2 d r (rw (nap'.0, acc.0) (omega arith)) go)
      ]

  Wrote-none :
      (bytes : List ℕ) (c : Context W) (w : W)
      → c.statistics.tx_accepted < 2 ^ 64
      → Quiet v c.world w
      → (is_empty bytes ≡ true) ⊎ (v.stopped w ≡ true)
      → Wrote v bytes
          (v.wire c.world)
          (v.consumed c.world)
          c.statistics.tx_accepted
          c.statistics.tx_completed
          (ok tt)
          (record c { world = w })
  Wrote-none bytes c w small q h = record {
    taken = 0;
    fits = omega arith;
    wired = q.same_wire ∙ sym (append-nil _);
    same_input = q.same_input;
    counted = omega arith;
    same_completed = refl;
    all_or_cancelled = λ _. elim h [ inl e ↦ inl (empty bytes e) | inr s ↦ inr s ];
  }
    where
      empty : (l : List ℕ) → is_empty l ≡ true → 0 ≡ length l
      empty [] e = refl
      empty (x ∷ xs) e = cc

  write_round_cases :
      (again : List ℕ → Action W Unit) (bytes : List ℕ) (c d : Context W) (r : Result Error Unit)
      → let (stop, w1) = host.is_cancelled c.world in
        let (outcome, w2) = transport.write bytes w1 in
        write_round transport host again bytes c ≡ some (r, d)
        → ((r ≡ ok tt) × (is_empty bytes ≡ true) × (d ≡ c))
          ⊎ ((r ≡ ok tt) × (stop ≡ true) × (d ≡ record c { world = w1 }))
          ⊎ (after_write transport host again bytes outcome (record c { world = w2 }) ≡ some (r, d))
  unfolding write_round
  write_round_cases again bytes c d r e = ground arith

  Quiet-refl : (w : W) → Quiet v w w
  Quiet-refl w = record { same_wire = refl; same_input = refl; sticky = λ h. h }

  write_round-Wrote :
      (laws : TxLaws transport host v) (again : List ℕ → Action W Unit)
      → Continues again
      → Continues (write_round transport host again)
  write_round-Wrote laws again ih bytes c d r small e =
      let w1 = (host.is_cancelled c.world).1 in
      let quiet = laws.quiet-is_cancelled c.world in
      elim (write_round_cases again bytes c d r e) [
        | inl (re, done, de) ↦
            rw (re, de) (Wrote-none bytes c c.world small (Quiet-refl c.world) (inl done))
        | inr (inl (re, stop, de)) ↦
            rw (re, de)
              (Wrote-none bytes c w1 small quiet (inr (laws.stopped-is_cancelled c.world ∙ stop)))
        | inr (inr go) ↦
            let (outcome, w2) = transport.write bytes w1 in
            subst
              (λ i.
                Wrote v bytes (v.wire c.world) i c.statistics.tx_accepted c.statistics.tx_completed
                  r d)
              (laws.input-write bytes w1 ∙ quiet.same_input)
              (after_write-Wrote laws again ih bytes outcome (v.wire c.world)
                (record c { world = w2 }) d r (laws.write_fits bytes w1)
                (laws.wire-write bytes w1
                  ∙ ap (λ l. l ++ take outcome.completed bytes) quiet.same_wire)
                small go)
      ]

  -- Whatever the transport answers, `write_transport` puts a prefix of its bytes on the wire, in
  -- order, counts those bytes and no others, reads no input, and without an error has written all
  -- of them or has seen the session cancelled.
  pub write_transport-Wrote :
      (laws : TxLaws transport host v) (fuel : ℕ) (bytes : List ℕ) (c d : Context W)
      (r : Result Error Unit)
      → c.statistics.tx_accepted < 2 ^ 64
      → write_transport transport host fuel bytes c ≡ some (r, d)
      → Wrote v bytes
          (v.wire c.world)
          (v.consumed c.world)
          c.statistics.tx_accepted
          c.statistics.tx_completed
          r
          d
  unfolding write_transport
  write_transport-Wrote laws zero bytes c d r small e = cc
  write_transport-Wrote laws (suc fuel) bytes c d r small e =
      write_round-Wrote laws (write_transport transport host fuel) (write_transport-Wrote laws fuel)
        bytes c d r small e

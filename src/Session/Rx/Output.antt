-- ===== src/Session/Rx/Output.antt =====
-- The output of the RX worker (src/uart/session.rs).
use glasgow_tool.Prelude.{
  ℕ, zero, suc, ◌+◌, ◌%◌, ◌^◌, ◌≤◌, ◌<◌, ◌≡◌, refl, sym, ap, ◌∙◌, inl, inr, some, List, [], ◌++◌,
  length, take, arith, append-nil, length-take,
}
use glasgow_tool.Error.{Error, Result, ok, err}
use glasgow_tool.Transport.{Transport, TransferOutcome}
use glasgow_tool.Session.{application_queue_bytes, would_block_backoff, rx_stopped}
use glasgow_tool.Session.Worker.{Host, Context, Action, send, write_all_and_flush}
use glasgow_tool.Session.Rx.{after_status, after_transfer, rx_loop, rx_report, rx_worker}
use glasgow_tool.Session.Rx.Laws.{RxViews, Still, RxLaws, Delivered, Delivered-add, Delivered-all}
use glasgow_tool.Session.Rx.Cases.{
  deliver_cases, after_status_cases, after_transfer_cases, rx_round_cases, rx_worker_cases,
}

module _ {W : Type 0} (transport : Transport W) (host : Host W) (v : RxViews W)
    (laws : RxLaws transport host v) where
  abbrev pub Delivers : Action W Unit → Type 0
  Delivers again =
      (c d : Context W) (r : Result Error Unit)
      → c.statistics.rx < 2 ^ 64
      → again c ≡ some (r, d)
      → Delivered v (v.arrived c.world) (v.shown c.world) c.statistics.rx r d

  -- After a chunk that was delivered whole.
  settled :
      (again : Action W Unit)
      → Delivers again
      → (outcome : TransferOutcome) (bytes arrived shown : List ℕ) (count : ℕ) (c d : Context W)
        (r : Result Error Unit)
      → v.arrived c.world ≡ arrived ++ bytes
      → v.shown c.world ≡ shown ++ bytes
      → c.statistics.rx ≡ (count + length bytes) % 2 ^ 64
      → after_status transport host again outcome c ≡ some (r, d)
      → Delivered v arrived shown count r d
  settled again delivers outcome bytes arrived shown count c d r a s k e =
      let small : c.statistics.rx < 2 ^ 64 = omega (arith, k) in
      elim (after_status_cases transport host again outcome c d r e) [
        | inl same ↦ rw same (Delivered-all v bytes arrived shown count r c a s k)
        | inr (inl go) ↦
            Delivered-add v bytes arrived shown (v.arrived c.world) (v.shown c.world) count
              c.statistics.rx r d a s k (delivers c d r small go)
        | inr (inr go) ↦
            let c1 : Context W = record c { world = host.sleep would_block_backoff c.world } in
            let still = laws.still-sleep would_block_backoff c.world in
            Delivered-add v bytes arrived shown (v.arrived c1.world) (v.shown c1.world) count
              c.statistics.rx r d (still.same_arrived ∙ a) (still.same_shown ∙ s) k
              (delivers c1 d r small go)
      ]

  no_bytes : (n : ℕ) (buffer : List ℕ) → n ≡ 0 → take n buffer ≡ []
  no_bytes n buffer e = rw e refl

  after_transfer-Delivered :
      (again : Action W Unit)
      → Delivers again
      → (outcome : TransferOutcome) (buffer arrived shown : List ℕ) (c d : Context W)
        (r : Result Error Unit)
      → c.statistics.rx < 2 ^ 64
      → outcome.completed ≤ application_queue_bytes
      → outcome.completed ≤ length buffer
      → v.arrived c.world ≡ arrived ++ take outcome.completed buffer
      → v.shown c.world ≡ shown
      → after_transfer transport host again outcome buffer c ≡ some (r, d)
      → Delivered v arrived shown c.statistics.rx r d
  after_transfer-Delivered again delivers outcome buffer arrived shown c d r small fits covers a s
        e =
      let n = outcome.completed in
      let bytes = take n buffer in
      let size : length bytes ≡ n = omega (arith, length-take n buffer) in
      let (answer, w1) = write_all_and_flush host bytes c.world in
      let came = laws.arrived-output bytes c.world ∙ a in
      let (r1, d1, delivered, next) =
        after_transfer_cases transport host again outcome buffer c d r fits e in
      elim (deliver_cases transport host n buffer c d1 r1 small delivered) [
        | inl (empty, good, same) ↦
            let none_taken = no_bytes n buffer empty in
            elim next [
              | inl (bad, x, y) ↦ absurd (bad good)
              | inr (fine, go) ↦
                  settled again delivers outcome bytes arrived shown c.statistics.rx d1 d r
                    (rw same a) (rw (same, none_taken) (s ∙ sym (append-nil shown)))
                    (rw same (omega arith)) go
            ]
        | inr (inl (error, failed, reason, same)) ↦
            let (k, part, shown_part) = laws.shown-output_failed bytes c.world in
            elim next [
              | inl (bad, result, end) ↦
                  rw (end, same)
                    (record {
                      fresh = bytes;
                      passed = k;
                      fits = part;
                      came = came;
                      went = shown_part ∙ ap (λ l. l ++ take k bytes) s;
                      whole = inr (error.message, result ∙ reason);
                    })
              | inr (fine, go) ↦ absurd (ground (arith, fine, reason))
            ]
        | inr (inr (done, good, world, counted)) ↦ elim next [
          | inl (bad, x, y) ↦ absurd (bad good)
          | inr (fine, go) ↦
              let still = laws.still-mark_rx w1 in
              settled again delivers outcome bytes arrived shown c.statistics.rx d1 d r
                (rw world (still.same_arrived ∙ came))
                (rw world (
                  still.same_shown ∙ laws.shown-output bytes c.world done ∙ ap (λ l. l ++ bytes) s))
                (omega (arith, counted)) go
        ]
      ]

  no_change :
      (c d : Context W)
      → Still v c.world d.world
      → d.statistics.rx ≡ c.statistics.rx
      → c.statistics.rx < 2 ^ 64
      → (r : Result Error Unit)
      → Delivered v (v.arrived c.world) (v.shown c.world) c.statistics.rx r d
  no_change c d still same small r =
      Delivered-all v [] (v.arrived c.world) (v.shown c.world) c.statistics.rx r d
        (still.same_arrived ∙ sym (append-nil _)) (still.same_shown ∙ sym (append-nil _))
        (omega (arith, same))

  pub rx_loop-Delivered : (fuel : ℕ) → Delivers (rx_loop transport host fuel)
  unfolding rx_loop
  rx_loop-Delivered zero c d r small e = cc
  rx_loop-Delivered (suc fuel) c d r small e =
      let w1 = (host.is_cancelled c.world).1 in
      let (outcome, buffer, w2) = transport.read application_queue_bytes w1 in
      let still = laws.still-is_cancelled c.world in
      elim (rx_round_cases transport host (rx_loop transport host fuel) c d r e) [
        | inl (fine, same) ↦ rw same (no_change c (record c { world = w1 }) still refl small r)
        | inr go ↦
            after_transfer-Delivered (rx_loop transport host fuel) (rx_loop-Delivered fuel) outcome
              buffer (v.arrived c.world) (v.shown c.world) (record c { world = w2 }) d r small
              (laws.read_fits application_queue_bytes w1)
              (laws.read_covers application_queue_bytes w1)
              (laws.arrived-read application_queue_bytes w1
                ∙ ap (λ l. l ++ take outcome.completed buffer) still.same_arrived)
              (laws.shown-read application_queue_bytes w1 ∙ still.same_shown) go
      ]

  pub reported :
      (arrived shown : List ℕ) (count : ℕ) (r : Result Error Unit) (d : Context W)
      → Delivered v arrived shown count r d
      → Delivered v arrived shown count r (send rx_stopped (rx_report transport host r d))
  unfolding rx_report
  reported arrived shown count (ok x) d h = record {
    fresh = h.fresh;
    passed = h.passed;
    fits = h.fits;
    came = h.came;
    went = h.went;
    whole = h.whole;
  }
  reported arrived shown count (err error) d h = record {
    fresh = h.fresh;
    passed = h.passed;
    fits = h.fits;
    came = h.came;
    went = h.went;
    whole = h.whole;
  }

  -- `d` is a state after the report of the outcome `r`.
  abbrev pub RxReported : Result Error Unit → Context W → Type 0
  RxReported r d = (d1 : Context W) × (d ≡ send rx_stopped (rx_report transport host r d1))

  -- Whatever the transport and the output do: when the RX worker ends with an outcome, which
  -- it reports, the bytes that the output took
  -- since its start are a prefix of the bytes that arrived, in order and unchanged; and unless
  -- the outcome is that the output failed, they are all of them, and the counter went up by their number.
  pub rx_worker-Delivered :
      (fuel : ℕ) (c d : Context W)
      → c.statistics.rx < 2 ^ 64
      → rx_worker transport host fuel c ≡ some d
      → (r : Result Error Unit) × Delivered v
          (v.arrived c.world)
          (v.shown c.world)
          c.statistics.rx
          r
          d
        × RxReported r d
  rx_worker-Delivered fuel c d small e =
      let (r, d1, loop, same) = rx_worker_cases transport host fuel c d e in
      let h = rx_loop-Delivered fuel c d1 r small loop in
      (
        r,
        rw same (reported (v.arrived c.world) (v.shown c.world) c.statistics.rx r d1 h),
        (d1, same),
      )

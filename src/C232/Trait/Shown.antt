-- ===== src/C232/Trait/Shown.antt =====
-- The RX worker of src/uart/session.rs over the USB transport of src/uart/c232/usb.rs: from the
-- transfers to the output.
use glasgow_tool.Prelude.{
  ℕ, ◌≤◌, ◌≡◌, refl, sym, ap, ◌∙◌, inl, inr, Bool, String, List, ◌++◌, take, take-all, length,
  arith, ◌+s◌, Bool-cases, Option-cases,
}
use glasgow_tool.Error.{Error, access, Result, ok, err, Result-cases}
use glasgow_tool.Session.Worker.{Host, write_all_and_flush}
use glasgow_tool.Session.Rx.Laws.{RxViews, RxLaws}
use glasgow_tool.C232.Usb.{UsbHost, UsbTransport, usb_read}
use glasgow_tool.C232.Usb.Queue.{rx_read_view}
use glasgow_tool.C232.Usb.Counting.{FlushTakesTime, usb_read_exact}
use glasgow_tool.C232.Trait.{Watched, watched_read, usb_transport, watched_host}

-- What the output does: a write that succeeds shows all its bytes, one that fails a first part of them,
-- and nothing else shows any.
pub record OutputLaws {W : Type 0} (usb : UsbHost W) (host : Host W) : Type 0 where
  pub shown : W → List ℕ
  pub shown-wait_next_complete : (w : W) → shown (usb.endpoint.wait_next_complete w).1 ≡ shown w
  pub shown-submit : (w : W) → shown (usb.endpoint.submit w) ≡ shown w
  pub shown-output :
      (bytes : List ℕ) (w : W)
      → (write_all_and_flush host bytes w).0 ≡ ok tt
      → shown (write_all_and_flush host bytes w).1 ≡ shown w ++ bytes
  pub shown-output_failed :
      (bytes : List ℕ) (w : W)
      → (k : ℕ) × (k ≤ length bytes)
        × (shown (write_all_and_flush host bytes w).1 ≡ shown w ++ take k bytes)
  pub shown-is_cancelled : (w : W) → shown (host.is_cancelled w).1 ≡ shown w
  pub shown-sleep : (n : ℕ) (w : W) → shown (host.sleep n w) ≡ shown w
  pub shown-mark_rx : (w : W) → shown (host.mark_rx w) ≡ shown w

module _ {W : Type 0} (usb : UsbHost W) (host : Host W) (law : OutputLaws usb host)
    (clocks : (interface : Bool) (late : Error) (deadline : ℕ)
      → FlushTakesTime usb interface late deadline) where
  abbrev pub usb_views : RxViews (Watched W)
  usb_views = record { arrived = λ s. s.passed; shown = λ s. law.shown s.world }

  shown-usb_read :
      (n : ℕ) (transport : UsbTransport) (w : W)
      → law.shown (usb_read usb n (transport, w)).2.1 ≡ law.shown w
  unfolding usb_read
  shown-usb_read n transport w = elim (Bool-cases transport.cancelled) [
    | inl e ↦ rw e refl
    | inr e ↦ elim (Option-cases transport.rx) [
      | inl x ↦ rw (e, x) refl
      | inr (rx, x) ↦
          rw (e, x)
            (rx_read_view usb.endpoint law.shown law.shown-wait_next_complete law.shown-submit rx n
              w)
    ]
  ]

  -- The output on the watched world is that of the world.
  output_same :
      (bytes : List ℕ) (s : Watched W)
      → write_all_and_flush (watched_host host) bytes s ≡ (
        (write_all_and_flush host bytes s.world).0,
        record s { world = (write_all_and_flush host bytes s.world).1 },
      )
  unfolding write_all_and_flush
  output_same bytes s = elim (Result-cases (host.write_all bytes s.world).0) [
    | inl (e, p) ↦ ground (arith, p)
    | inr (a, p) ↦ ground (arith, p)
  ]

  usb_read_covers :
      (n : ℕ) (s : Watched W)
      → s.passed ++ (usb_read usb n (s.usb, s.world)).1
        ≡ s.passed
          ++ take (usb_read usb n (s.usb, s.world)).0.completed (usb_read usb n (s.usb, s.world)).1
  usb_read_covers n s =
      let exact = usb_read_exact usb n (s.usb, s.world) in
      ap (λ l. s.passed ++ l) (sym (take-all _ _ (omega (arith, exact.count))))

  pub usb_RxLaws : RxLaws (usb_transport usb clocks) (watched_host host) usb_views
  unfolding usb_transport watched_read
  usb_RxLaws = record {
    read_fits = λ n s.
        let exact = usb_read_exact usb n (s.usb, s.world) in omega (arith, exact.count, exact.fits);
    read_covers =
        λ n s. let exact = usb_read_exact usb n (s.usb, s.world) in omega (arith, exact.count);
    arrived-read = λ n s. usb_read_covers n s;
    shown-read = λ n s. shown-usb_read n s.usb s.world;
    arrived-output = λ bytes s. ap (λ o. o.1.passed) (output_same bytes s);
    shown-output = λ bytes s h.
        ap (λ o. law.shown o.1.world) (output_same bytes s)
        ∙ law.shown-output bytes s.world (sym (ap (λ o. o.0) (output_same bytes s)) ∙ h);
    shown-output_failed = λ bytes s.
        let (k, fits, e) = law.shown-output_failed bytes s.world in
        (k, fits, ap (λ o. law.shown o.1.world) (output_same bytes s) ∙ e);
    still-is_cancelled =
        λ s. record { same_arrived = refl; same_shown = law.shown-is_cancelled s.world };
    still-sleep = λ n s. record { same_arrived = refl; same_shown = law.shown-sleep n s.world };
    still-mark_rx = λ s. record { same_arrived = refl; same_shown = law.shown-mark_rx s.world };
  }

  -- The session's output failed.
  abbrev pub OutputFailed : Result Error Unit → Type 0
  OutputFailed r = (text : String) × (r ≡ err (access ("stdout write failed: " +s text)))

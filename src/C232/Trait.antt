-- ===== src/C232/Trait.antt =====
-- `impl Transport for UsbTransport` of src/uart/c232/usb.rs as a record of operations, on a world
-- that also keeps what the transfers brought and what the reads handed over.
pub mod Shown
use glasgow_tool.Prelude.{
  ℕ, zero, suc, ◌+◌, ◌<◌, ◌≡◌, refl, sym, ap, ◌∙◌, Bool, true, false, Option, none, some, List, [],
  ◌++◌, inl, inr, append-nil, append_assoc, arith, Bool-cases, Option-cases,
}
use glasgow_tool.Error.{Error, Result, ok, err, IoError, Result-cases}
use glasgow_tool.Transport.{Transport, TransferOutcome, Metadata, Counters}
use glasgow_tool.Session.Worker.{Host}
use glasgow_tool.C232.Usb.{
  UsbHost, UsbRx, UsbTransport, Reading, rx_read, account_reading, usb_read, usb_write,
  usb_submit_tx, usb_drain, usb_cancel, usb_counters, not_drained,
}
use glasgow_tool.C232.Usb.Queue.{fresh, rx_read_order}
use glasgow_tool.C232.Usb.Counting.{FlushTakesTime, usb_drain_returns}

-- The bytes that were received and not yet handed over.
abbrev pub pending_of : Option UsbRx → List ℕ
pending_of none = []
pending_of (some rx) = rx.pending_payload

abbrev pub pending : UsbTransport → List ℕ
pending usb = pending_of usb.rx

-- The payload that a read takes from the endpoint.
unfoldable pub brings : {W : Type 0} → UsbHost W → UsbTransport → W → List ℕ
unfolding fresh
brings host usb w = elim usb.cancelled [
  | true ↦ []
  | false ↦ elim usb.rx [ none ↦ [] | some rx ↦ fresh host.endpoint rx w ]
]

account_pending :
    (usb : UsbTransport) (r : Reading)
    → (account_reading usb r).1 ++ pending (account_reading usb r).2
      ≡ r.output ++ r.queue.pending_payload
unfolding account_reading
account_pending usb r = elim (Result-cases r.answer) [
  | inl (e, p) ↦ rw p refl
  | inr (a, p) ↦ rw p refl
]

-- A read hands over the front of what was pending and what came, and keeps the rest, in order.
pub usb_read_keeps :
    {W : Type 0} (host : UsbHost W) (capacity : ℕ) (usb : UsbTransport) (w : W)
    → (usb_read host capacity (usb, w)).1 ++ pending (usb_read host capacity (usb, w)).2.0
      ≡ pending usb ++ brings host usb w
unfolding usb_read brings
usb_read_keeps host capacity usb w = elim (Bool-cases usb.cancelled) [
  | inl e ↦ rw e (sym (append-nil _))
  | inr e ↦ elim (Option-cases usb.rx) [
    | inl n ↦ rw (e, n) (ap pending_of n)
    | inr (rx, n) ↦
        rw (e, n)
          (account_pending usb (rx_read host.endpoint rx capacity w).0
            ∙ rx_read_order host.endpoint rx capacity w)
  ]
]

-- The transport and the world, what the reads handed over, and what the transfers brought.
pub record Watched (W : Type 0) : Type 0 where
  pub usb : UsbTransport
  pub world : W
  pub passed : List ℕ
  pub came : List ℕ
  pub agree : passed ++ pending usb ≡ came

module _ {W : Type 0} (host : UsbHost W) where
  pub watched_agree :
      (capacity : ℕ) (s : Watched W)
      → (s.passed ++ (usb_read host capacity (s.usb, s.world)).1)
          ++ pending (usb_read host capacity (s.usb, s.world)).2.0
        ≡ s.came ++ brings host s.usb s.world
  watched_agree capacity s =
      append_assoc s.passed _ _
      ∙ ap (λ l. s.passed ++ l) (usb_read_keeps host capacity s.usb s.world)
      ∙ sym (append_assoc s.passed _ _)
      ∙ ap (λ l. l ++ brings host s.usb s.world) s.agree

  unfoldable pub watched_read : ℕ → Watched W → TransferOutcome × List ℕ × Watched W
  watched_read capacity s =
      let read = usb_read host capacity (s.usb, s.world) in
      (
        read.0,
        read.1,
        record {
          usb = read.2.0;
          world = read.2.1;
          passed = s.passed ++ read.1;
          came = s.came ++ brings host s.usb s.world;
          agree = watched_agree capacity s;
        },
      )

  -- The methods of the trait; a drain has the probes that its timeout needs.
  unfoldable pub usb_transport :
      ((interface : Bool) (late : Error) (deadline : ℕ)
        → FlushTakesTime host interface late deadline)
      → Transport (Watched W)
  unfolding watched_read
  usb_transport law = record {
    metadata = λ s. s.usb.metadata;
    read = watched_read;
    write = λ bytes s.
        let (outcome, after) = usb_write host bytes (s.usb, s.world) in
        (outcome, record s { world = after.1 });
    submit_tx = λ s. record s { world = (usb_submit_tx host (s.usb, s.world)).1 };
    drain = λ wait s.
        let (result, after) =
          (usb_drain_returns host (suc wait) wait s.usb s.world (law _ _ _) (omega arith)).0 in
        (result, record s { world = after.1 });
    cancel = λ s. record {
      usb = record s.usb { cancelled = true };
      world = (usb_cancel host (s.usb, s.world)).1;
      passed = s.passed;
      came = s.came;
      agree = s.agree;
    };
    counters = λ s. (usb_counters host (s.usb, s.world), s);
  }

-- The reader, the output, the flag and the clock of a session, beside the transport.
abbrev pub watched_host : {W : Type 0} → Host W → Host (Watched W)
watched_host host = record {
  is_cancelled = λ s. let (stop, w) = host.is_cancelled s.world in (stop, record s { world = w });
  read_input = λ n s. let (bytes, w) = host.read_input n s.world in (bytes, record s { world = w });
  write_all = λ bytes s. let (r, w) = host.write_all bytes s.world in (r, record s { world = w });
  flush = λ s. let (r, w) = host.flush s.world in (r, record s { world = w });
  sleep = λ n s. record s { world = host.sleep n s.world };
  mark_rx = λ s. record s { world = host.mark_rx s.world };
}

-- ===== src/C232/Usb/Counting.antt =====
-- The outcomes of `UsbTransport::read` and its drain (src/uart/c232/usb.rs).
use Prim.Native.Nat.{bit_and}
use glasgow_tool.Prelude.{
  ℕ, ◌+◌, ◌≤◌, ◌<◌, ◌≡◌, ◌≢◌, refl, Bool, true, false, Option, none, some, List, [], ◌∷◌, ap, arith,
  length, min, length-take, inl, inr, String, is_empty, Bool-cases, Option-cases, is_none,
}
use glasgow_tool.Error.{Error, Result, ok, err}
use glasgow_tool.Transport.{TransferOutcome}
use glasgow_tool.Poll.{poll, poll_ok, Advances, poll_returns}
use glasgow_tool.C232.Status.{FtdiLineCounters, Stripped, has_bits, line_temt}
use glasgow_tool.C232.Usb.{
  Completion, Endpoint, UsbRx, account_reading, drain_poll, io_timeout, not_drained, flush_writer,
  UsbHost, UsbTransport, State, Reading, rx_read, from_pending, from_stripped, from_completion,
  usb_read, usb_drain, transmitter_probe,
}

-- How many bytes an answer counts.
abbrev answered : Result TransferOutcome (ℕ × FtdiLineCounters) → ℕ
answered (ok (completed, counters)) = completed
answered (err outcome) = outcome.completed

-- A failure with no status.
abbrev silent : Result TransferOutcome (ℕ × FtdiLineCounters) → Bool
silent (ok _) = false
silent (err outcome) = is_none outcome.failure

-- An answer counts the bytes that were put out, and these fit the output.
record IsExact (capacity : ℕ) (r : Reading) : Type 0 where
  pub count : answered r.answer ≡ length r.output
  pub fits : length r.output ≤ capacity
  pub told : silent r.answer ≡ false

from_pending-IsExact : (rx : UsbRx) (capacity : ℕ) → IsExact capacity (from_pending rx capacity)
unfolding from_pending
from_pending-IsExact rx capacity =
    let e = length-take (min capacity (length rx.pending_payload)) rx.pending_payload in
    record { count = omega arith; fits = omega arith; told = refl }

from_stripped-IsExact :
    (rx : UsbRx) (capacity : ℕ) (status : Option String) (stripped : Stripped)
    → IsExact capacity (from_stripped rx capacity status stripped)
unfolding from_stripped
from_stripped-IsExact rx capacity status (err error) = record {
  count = refl;
  fits = omega arith;
  told = refl;
}
from_stripped-IsExact rx capacity none (ok (payload, counters, line)) =
    let e = length-take (min capacity (length payload)) payload in
    record { count = omega arith; fits = omega arith; told = refl }
from_stripped-IsExact rx capacity (some error) (ok (payload, counters, line)) =
    let e = length-take (min capacity (length payload)) payload in
    record { count = omega arith; fits = omega arith; told = refl }

from_completion-IsExact :
    {W : Type 0} (endpoint : Endpoint W) (rx : UsbRx) (capacity : ℕ) (c : Option Completion × W)
    → IsExact capacity (from_completion endpoint rx capacity c).0
unfolding from_completion
from_completion-IsExact endpoint rx capacity (none, w) = record {
  count = refl;
  fits = omega arith;
  told = refl;
}
from_completion-IsExact endpoint rx capacity (some c, w) =
    from_stripped-IsExact rx capacity c.status _

rx_read-IsExact :
    {W : Type 0} (endpoint : Endpoint W) (rx : UsbRx) (capacity : ℕ) (w : W)
    → IsExact capacity (rx_read endpoint rx capacity w).0
unfolding rx_read
rx_read-IsExact endpoint rx capacity w = elim (Bool-cases (is_empty rx.pending_payload)) [
  | inl e ↦ rw e (from_completion-IsExact endpoint rx capacity (endpoint.wait_next_complete w))
  | inr e ↦ rw e (from_pending-IsExact rx capacity)
]

pub record IsExactRead (capacity : ℕ) (outcome : TransferOutcome) (bytes : List ℕ) : Type 0 where
  pub count : outcome.completed ≡ length bytes
  pub fits : length bytes ≤ capacity
  pub told : outcome.failure ≡ none → 0 < outcome.completed

account_reading_exact :
    (usb : UsbTransport) (capacity : ℕ) (r : Reading)
    → IsExact capacity r
    → IsExactRead capacity (account_reading usb r).0 (account_reading usb r).1
unfolding account_reading
account_reading_exact usb capacity r h = ground arith

-- Every read of the USB transport reports as completed just the bytes that it returned, which fit
-- the buffer, and with no byte it reports a status: a session never sees it as a protocol error.
pub usb_read_exact :
    {W : Type 0} (host : UsbHost W) (capacity : ℕ) (s : State host)
    → IsExactRead capacity (usb_read host capacity s).0 (usb_read host capacity s).1
unfolding usb_read
usb_read_exact host capacity (usb, w) = elim (Bool-cases usb.cancelled) [
  | inl e ↦ rw e (record { count = refl; fits = omega arith; told = λ h. cc })
  | inr e ↦ elim (Option-cases usb.rx) [
    | inl n ↦ rw (e, n) (record { count = refl; fits = omega arith; told = λ h. cc })
    | inr (rx, n) ↦
        rw (e, n)
          (account_reading_exact usb capacity (rx_read host.endpoint rx capacity w).0
            (rx_read-IsExact host.endpoint rx capacity w))
  ]
]

-- The probes that a drain makes are those of the wait.
drain_waits :
    {W : Type 0} (host : UsbHost W) (fuel wait : ℕ) (s s' : State host)
    → usb_drain host fuel wait s ≡ some (ok tt, s')
    → let (now, w1) = host.clock.now s.1 in
      poll host.clock
        (transmitter_probe host s.0.interface)
        drain_poll
        (now + wait)
        (not_drained host s.0 wait)
        fuel
        (flush_writer host wait s.0.writer w1).1
      ≡ some (ok tt, s'.1)
unfolding usb_drain
drain_waits host fuel wait s s' e = ground arith

-- The device answered a request for its status with two bytes, and in the second one the bit 0x40,
-- transmitter empty, was set; that answer left the world `w`.
abbrev pub SawEmpty : {W : Type 0} → UsbHost W → W → Type 0
SawEmpty {W} host w =
    (v : W) × (modem : ℕ) × (line : ℕ) × (host.modem_status_request v ≡ (ok (modem ∷ line ∷ []), w))
    × (bit_and line 0x40 ≢ 0)

sent_bit : (line : ℕ) → has_bits line line_temt ≡ true → bit_and line 0x40 ≢ 0
sent_bit line h = λ e. ground (arith, h, e)

saw_empty :
    {W : Type 0} (host : UsbHost W) (w : W) (v : W) (response : Result String (List ℕ))
    → host.modem_status_request v ≡ (response, w)
    → transmitter_probe host true v ≡ (ok true, w)
    → SawEmpty host w
unfolding transmitter_probe
saw_empty host w v (err error) p e = absurd (ground (arith, p))
saw_empty host w v (ok []) p e = absurd (ground (arith, p))
saw_empty host w v (ok (modem ∷ [])) p e = absurd (ground (arith, p))
saw_empty host w v (ok (modem ∷ line ∷ [])) p e =
    (v, modem, line, p, sent_bit line (ground (arith, p)))
saw_empty host w v (ok (modem ∷ line ∷ more ∷ rest)) p e = absurd (ground (arith, p))

probe_left :
    {W : Type 0} (host : UsbHost W) (w v : W)
    → transmitter_probe host true v ≡ (ok true, w)
    → (host.modem_status_request v).1 ≡ w
unfolding transmitter_probe
probe_left host w v e = ap (λ k. k.1) e

probe_true :
    {W : Type 0} (host : UsbHost W) (interface : Bool) (w v : W)
    → transmitter_probe host interface v ≡ (ok true, w)
    → SawEmpty host w
unfolding transmitter_probe
probe_true host false w v e = absurd (ground arith)
probe_true host true w v e =
    saw_empty host w v (host.modem_status_request v).0
      (ap (λ u. ((host.modem_status_request v).0, u)) (probe_left host w v e)) e

-- A drain that succeeds ended with a status of two bytes, in whose second one the transmitter-empty
-- bit was set.
pub usb_drain_observed :
    {W : Type 0} (host : UsbHost W) (fuel wait : ℕ) (s s' : State host)
    → usb_drain host fuel wait s ≡ some (ok tt, s')
    → SawEmpty host s'.1
usb_drain_observed host fuel wait s s' e =
    let (v, probed) =
      poll_ok host.clock (transmitter_probe host s.0.interface) _ _ _ fuel _ s'.1
        (drain_waits host fuel wait s s' e) in
    probe_true host s.0.interface s'.1 v probed

-- The clock goes on while the writer is flushed.
pub record FlushTakesTime {W : Type 0} (host : UsbHost W) (interface : Bool) (late : Error)
    (deadline : ℕ) : Type 0 where
  pub advances : Advances host.clock (transmitter_probe host interface) drain_poll deadline late
  pub time-set_write_timeout :
      (n : ℕ) (w : W) → advances.time w ≤ advances.time (host.set_write_timeout n w)
  pub time-flush : (w : W) → advances.time w ≤ advances.time (host.flush w).1

flush_writer_time :
    {W : Type 0} (host : UsbHost W) (interface : Bool) (late : Error) (deadline : ℕ)
    (law : FlushTakesTime host interface late deadline) (wait : ℕ) (writer : Bool) (w : W)
    → law.advances.time w ≤ law.advances.time (flush_writer host wait writer w).1
unfolding flush_writer
flush_writer_time host interface late deadline law wait false w = omega arith
flush_writer_time host interface late deadline law wait true w =
    let w1 = host.set_write_timeout wait w in
    let w2 = (host.flush w1).1 in
    ground (
      arith,
      law.time-set_write_timeout wait w,
      law.time-flush w1,
      law.time-set_write_timeout io_timeout w2,
    )

drain_flushed :
    {W : Type 0} (host : UsbHost W) (fuel wait : ℕ) (usb : UsbTransport) (w : W)
    → (out : Result Error Unit × W) × (poll host.clock
          (transmitter_probe host usb.interface)
          drain_poll
          ((host.clock.now w).0 + wait)
          (not_drained host usb wait)
          fuel
          (flush_writer host wait usb.writer (host.clock.now w).1).1
        ≡ some out)
    → usb_drain host fuel wait (usb, w) ≢ none
unfolding usb_drain
drain_flushed host fuel wait usb w h = ground arith

-- A drain ends: with one probe for each unit of its timeout it succeeds, fails or is late, if the
-- clock does not go back and each pause takes time.
pub usb_drain_returns :
    {W : Type 0} (host : UsbHost W) (fuel wait : ℕ) (usb : UsbTransport) (w : W)
    → FlushTakesTime host usb.interface (not_drained host usb wait) ((host.clock.now w).0 + wait)
    → wait < fuel
    → (out : Result Error Unit × State host) × (usb_drain host fuel wait (usb, w) ≡ some out)
usb_drain_returns host fuel wait usb w law h =
    let deadline = (host.clock.now w).0 + wait in
    let late = not_drained host usb wait in
    let w1 = (host.clock.now w).1 in
    let w2 = (flush_writer host wait usb.writer w1).1 in
    let later = flush_writer_time host usb.interface late deadline law wait usb.writer w1 in
    let waited =
      poll_returns host.clock (transmitter_probe host usb.interface) drain_poll deadline late
        law.advances fuel w2 (omega arith) (omega (arith, later, law.advances.now_time w)) in
    elim (Option-cases (usb_drain host fuel wait (usb, w))) [
      | inl e ↦ absurd (drain_flushed host fuel wait usb w waited e)
      | inr out ↦ out
    ]

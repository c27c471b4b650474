-- ===== src/C232/Usb/Queue.antt =====
-- Reads of the receive queue in a row (src/uart/c232/usb.rs).
use glasgow_tool.Prelude.{
  ℕ, ◌≡◌, refl, sym, ap, ◌∙◌, true, Option, none, some, List, [], ◌∷◌, ◌++◌, append-nil,
  append_assoc, take-append-drop, is_empty, length, min, Bool-cases, inl, inr, if◌then◌else◌,
  String,
}
use glasgow_tool.Error.{ok, err}
use glasgow_tool.C232.Status.{Stripped, strip_ftdi_status_from}
use glasgow_tool.C232.Usb.{
  Completion, Endpoint, UsbRx, from_pending, from_stripped, from_completion, rx_read,
}

-- The payload that a transfer brings.
abbrev payload_of : Stripped → List ℕ
payload_of (ok (payload, counters, line)) = payload
payload_of (err error) = []

abbrev pub brought : UsbRx → Option Completion → List ℕ
brought rx none = []
brought rx (some completion) =
    payload_of (strip_ftdi_status_from completion.buffer rx.max_packet rx.last_line_status)

-- What a read takes from the endpoint: nothing, while bytes are pending.
unfoldable pub fresh : {W : Type 0} → Endpoint W → UsbRx → W → List ℕ
fresh endpoint rx w =
    if is_empty rx.pending_payload then brought rx (endpoint.wait_next_complete w).0 else []

from_pending_order :
    (rx : UsbRx) (capacity : ℕ)
    → (from_pending rx capacity).output ++ (from_pending rx capacity).queue.pending_payload
      ≡ rx.pending_payload
unfolding from_pending
from_pending_order rx capacity = take-append-drop _ rx.pending_payload

from_stripped_order :
    (rx : UsbRx) (capacity : ℕ) (status : Option String) (stripped : Stripped)
    → rx.pending_payload ≡ []
    → (from_stripped rx capacity status stripped).output
        ++ (from_stripped rx capacity status stripped).queue.pending_payload
      ≡ payload_of stripped
unfolding from_stripped
from_stripped_order rx capacity status (err error) h = h
from_stripped_order rx capacity status (ok (payload, counters, line)) h =
    rw h (take-append-drop (min capacity (length payload)) payload)

nil_of_empty : (l : List ℕ) → is_empty l ≡ true → l ≡ []
nil_of_empty [] h = refl
nil_of_empty (x ∷ l) h = cc

from_completion_order :
    {W : Type 0} (endpoint : Endpoint W) (rx : UsbRx) (capacity : ℕ) (c : Option Completion × W)
    → rx.pending_payload ≡ []
    → (from_completion endpoint rx capacity c).0.output
        ++ (from_completion endpoint rx capacity c).0.queue.pending_payload
      ≡ brought rx c.0
unfolding from_completion
from_completion_order endpoint rx capacity (none, w) h = h
from_completion_order endpoint rx capacity (some completion, w) h =
    from_stripped_order rx capacity completion.status _ h

pub rx_read_order :
    {W : Type 0} (endpoint : Endpoint W) (rx : UsbRx) (capacity : ℕ) (w : W)
    → (rx_read endpoint rx capacity w).0.output
        ++ (rx_read endpoint rx capacity w).0.queue.pending_payload
      ≡ rx.pending_payload ++ fresh endpoint rx w
unfolding rx_read fresh
rx_read_order endpoint rx capacity w = elim (Bool-cases (is_empty rx.pending_payload)) [
  | inl e ↦
      let pending = nil_of_empty rx.pending_payload e in
      rw e (
        from_completion_order endpoint rx capacity (endpoint.wait_next_complete w) pending
        ∙ ap (λ l. l ++ brought rx (endpoint.wait_next_complete w).0) (sym pending))
  | inr e ↦ rw e (from_pending_order rx capacity ∙ sym (append-nil _))
]

module _ {W : Type 0} (endpoint : Endpoint W) where
  -- Reads in a row, into outputs of these capacities: all that was returned, and the queue left.
  pub outputs : List ℕ → UsbRx → W → List ℕ × UsbRx
  outputs [] rx w = ([], rx)
  outputs (capacity ∷ more) rx w =
      let (reading, w1) = rx_read endpoint rx capacity w in
      let (rest, last) = outputs more reading.queue w1 in (reading.output ++ rest, last)

  -- The payloads that these reads took from the endpoint.
  pub arrivals : List ℕ → UsbRx → W → List ℕ
  arrivals [] rx w = []
  arrivals (capacity ∷ more) rx w =
      let (reading, w1) = rx_read endpoint rx capacity w in
      fresh endpoint rx w ++ arrivals more reading.queue w1

  -- Over any sequence of reads, of whatever sizes and whatever the transfers bring, timeouts and
  -- failed transfers included, the bytes returned and then those still pending are the bytes that
  -- were pending at the start and then the payloads that arrived, in order.
  pub reads_in_order :
      (capacities : List ℕ) (rx : UsbRx) (w : W)
      → (outputs capacities rx w).0 ++ (outputs capacities rx w).1.pending_payload
        ≡ rx.pending_payload ++ arrivals capacities rx w
  unfolding outputs arrivals
  reads_in_order [] rx w = sym (append-nil _)
  reads_in_order (capacity ∷ more) rx w =
      let (reading, w1) = rx_read endpoint rx capacity w in
      let ih = reads_in_order more reading.queue w1 in
      append_assoc reading.output _ _
      ∙ ap (λ l. reading.output ++ l) ih
      ∙ sym (append_assoc reading.output _ _)
      ∙ ap (λ l. l ++ arrivals more reading.queue w1) (rx_read_order endpoint rx capacity w)
      ∙ append_assoc rx.pending_payload _ _

-- What the endpoint leaves as it was, a read of the queue does.
module _ {W S : Type 0} (endpoint : Endpoint W) (view : W → S)
    (waits : (w : W) → view (endpoint.wait_next_complete w).1 ≡ view w)
    (submits : (w : W) → view (endpoint.submit w) ≡ view w) where
  from_completion_view :
      (rx : UsbRx) (capacity : ℕ) (c : Option Completion × W) (w : W)
      → view c.1 ≡ view w
      → view (from_completion endpoint rx capacity c).1 ≡ view w
  unfolding from_completion
  from_completion_view rx capacity (none, v) w h = h
  from_completion_view rx capacity (some completion, v) w h = submits v ∙ h

  pub rx_read_view :
      (rx : UsbRx) (capacity : ℕ) (w : W) → view (rx_read endpoint rx capacity w).1 ≡ view w
  unfolding rx_read
  rx_read_view rx capacity w = elim (Bool-cases (is_empty rx.pending_payload)) [
    | inl e ↦ rw e (from_completion_view rx capacity (endpoint.wait_next_complete w) w (waits w))
    | inr e ↦ rw e refl
  ]

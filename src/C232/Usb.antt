-- ===== src/C232/Usb.antt =====
-- src/uart/c232/usb.rs: the receive queue `UsbRx`, and `UsbTransport` as an implementation of the
-- `Transport` trait. nusb's endpoints, control transfers and the clock are parameters.
pub mod Queue
pub mod Counting
use Prim.Native.Nat.{bit_and}
use glasgow_tool.Prelude.{
  ℕ, zero, suc, ◌+◌, ◌*◌, ◌/◌, ◌%◌, ◌^◌, Bool, true, false, String, Option, none, some, List, [],
  ◌∷◌, ◌++◌, ◌==◌, is_empty, length, take, drop, min, if◌then◌else◌, ◌+s◌, decimal, get_or,
}
use glasgow_tool.Error.{
  Error, selection, access, protocol, timeout, validation, Result, ok, err, ErrorKind, IoError,
}
use glasgow_tool.Transport.{
  Transport, TransferOutcome, TransferFailureKind, complete, failed, Metadata, Counters,
}
use glasgow_tool.Session.{fetch_add, from_millis}
use glasgow_tool.Poll.{Clock, poll}
use glasgow_tool.C232.Status.{
  FtdiLineCounters, no_counters, Stripped, strip_ftdi_status_from, has_bits, line_temt,
}

-- `Error::to_string`
abbrev pub error_text : Error → String
error_text (selection s) = s
error_text (access s) = s
error_text (protocol s) = s
error_text (timeout s) = s
error_text (validation s) = s

-- A completed IN transfer: the error of its status, and the bytes of its buffer.
pub record Completion : Type 0 where
  pub status : Option String
  pub buffer : List ℕ

-- nusb's `Endpoint<Bulk, In>`
pub record Endpoint (W : Type 0) : Type 0 where
  pub wait_next_complete : W → Option Completion × W
  pub submit : W → W
  pub cancel_all : W → W

pub record UsbRx : Type 0 where
  pub pending_payload : List ℕ
  pub max_packet : ℕ
  pub last_line_status : Option ℕ

-- The result of `UsbRx::read`, the bytes that it left at the front of the output, and the queue.
pub record Reading : Type 0 where
  pub answer : Result TransferOutcome (ℕ × FtdiLineCounters)
  pub output : List ℕ
  pub queue : UsbRx

from_pending : UsbRx → ℕ → Reading
from_pending rx capacity =
    let count = min capacity (length rx.pending_payload) in
    record {
      answer = ok (count, no_counters);
      output = take count rx.pending_payload;
      queue = record rx { pending_payload = drop count rx.pending_payload };
    }

from_stripped : UsbRx → ℕ → Option String → Stripped → Reading
from_stripped rx capacity status (err error) = record {
  answer = err (failed 0 TransferFailureKind.protocol (error_text error));
  output = [];
  queue = rx;
}
from_stripped rx capacity status (ok (payload, counters, last_line_status)) =
    let count = min capacity (length payload) in
    record {
      answer = elim status [
        | some error ↦
            err (failed count TransferFailureKind.access ("FTDI USB read failed: " +s error))
        | none ↦ ok (count, counters)
      ];
      output = take count payload;
      queue = record rx {
        pending_payload = rx.pending_payload ++ drop count payload;
        last_line_status = last_line_status;
      };
    }

from_completion : {W : Type 0} → Endpoint W → UsbRx → ℕ → Option Completion × W → Reading × W
unfolding from_stripped
from_completion endpoint rx capacity (none, w) = (
  record {
    answer = err (failed 0 TransferFailureKind.timed_out "FTDI USB read timed out");
    output = [];
    queue = rx;
  },
  w,
)
from_completion endpoint rx capacity (some completion, w) = (
  from_stripped rx capacity completion.status
      (strip_ftdi_status_from completion.buffer rx.max_packet rx.last_line_status),
  endpoint.submit w,
)

-- `UsbRx::read` into an output of `capacity` bytes
unfoldable pub rx_read : {W : Type 0} → Endpoint W → UsbRx → ℕ → W → Reading × W
unfolding from_pending from_completion
rx_read endpoint rx capacity w =
    if is_empty rx.pending_payload
    then from_completion endpoint rx capacity (endpoint.wait_next_complete w)
    else (from_pending rx capacity, w)

-- nusb's `EndpointWrite<Bulk>`, its control transfers, and the clock
pub record UsbHost (W : Type 0) : Type 0 where
  pub endpoint : Endpoint W
  pub clock : Clock W
  pub write : List ℕ → W → Result IoError ℕ × W
  pub submit : W → W
  pub set_write_timeout : ℕ → W → W
  pub flush : W → Result IoError Unit × W
  pub modem_status_request : W → Result String (List ℕ) × W

pub record UsbTransport : Type 0 where
  pub metadata : Metadata
  pub interface : Bool
  pub rx : Option UsbRx
  pub writer : Bool
  pub rx_errors : ℕ
  pub rx_overflow : ℕ
  pub cancelled : Bool
  pub driver_detached : Bool

abbrev pub io_timeout : ℕ
io_timeout = from_millis 50

abbrev pub drain_poll : ℕ
drain_poll = from_millis 10

-- The counters after a read, and its outcome for the caller.
unfoldable pub account_reading : UsbTransport → Reading → TransferOutcome × List ℕ × UsbTransport
account_reading usb r = elim r.answer [
  | ok (completed, counters) ↦ (
    if completed == 0
        then failed 0 TransferFailureKind.would_block "FTDI USB status-only packet"
        else complete completed,
    r.output,
    record usb {
      rx = some r.queue;
      rx_errors = fetch_add usb.rx_errors counters.errors;
      rx_overflow = fetch_add usb.rx_overflow counters.overflow;
    },
  )
  | err outcome ↦ (outcome, r.output, record usb { rx = some r.queue })
]

write_failure_kind : ErrorKind → TransferFailureKind
write_failure_kind ErrorKind.interrupted = TransferFailureKind.interrupted
write_failure_kind ErrorKind.would_block = TransferFailureKind.would_block
write_failure_kind ErrorKind.timed_out = TransferFailureKind.timed_out
write_failure_kind _ = TransferFailureKind.access

module _ {W : Type 0} (host : UsbHost W) where
  abbrev pub State : Type 0
  State = UsbTransport × W

  unfoldable pub usb_read : ℕ → State → TransferOutcome × List ℕ × State
  usb_read capacity (usb, w) =
      if usb.cancelled
      then (failed 0 TransferFailureKind.timed_out "cancelled", [], (usb, w))
      else elim usb.rx [
        | none ↦ (failed 0 TransferFailureKind.disconnected "closed", [], (usb, w))
        | some rx ↦
            let (reading, w1) = rx_read host.endpoint rx capacity w in
            let (outcome, bytes, usb1) = account_reading usb reading in (outcome, bytes, (usb1, w1))
      ]

  write_outcome : Result IoError ℕ → TransferOutcome
  unfolding write_failure_kind
  write_outcome (ok completed) = complete completed
  write_outcome (err error) = failed 0 (write_failure_kind error.kind) error.message

  unfoldable pub usb_write : List ℕ → State → TransferOutcome × State
  unfolding write_outcome
  usb_write bytes (usb, w) =
      if usb.cancelled
      then (failed 0 TransferFailureKind.timed_out "cancelled", (usb, w))
      else if usb.writer
      then (let (result, w1) = host.write bytes w in (write_outcome result, (usb, w1)))
      else (failed 0 TransferFailureKind.disconnected "closed", (usb, w))

  unfoldable pub usb_submit_tx : State → State
  usb_submit_tx (usb, w) = if usb.writer then (usb, host.submit w) else (usb, w)

  flush_error : ℕ → IoError → Error
  flush_error wait error = elim error.kind [
    | ErrorKind.timed_out ↦ timeout ("FTDI USB drain exceeded " +s decimal (wait / 10 ^ 6) +s " ms")
    | _ ↦ access ("FTDI USB drain failed: " +s error.message)
  ]

  -- The flush under the caller's timeout, which is put back whatever comes of it.
  unfoldable pub flush_writer : ℕ → Bool → W → Result Error Unit × W
  unfolding flush_error
  flush_writer wait false w = (ok tt, w)
  flush_writer wait true w =
      let (result, w1) = host.flush (host.set_write_timeout wait w) in
      let w2 = host.set_write_timeout io_timeout w1 in
      elim result [ ok _ ↦ (ok tt, w2) | err error ↦ (err (flush_error wait error), w2) ]

  -- `modem_status(interface)?[1] & LINE_TEMT != 0`
  is_sent : Result String (List ℕ) → Result Error Bool
  is_sent (err error) = err (access ("FTDI modem-status request failed: " +s error))
  is_sent (ok (_ ∷ line ∷ [])) = ok (has_bits line line_temt)
  is_sent (ok _) = err (protocol "FTDI modem-status response is not two bytes")

  unfoldable pub transmitter_probe : Bool → W → Result Error Bool × W
  unfolding is_sent
  transmitter_probe false w = (err (access "FTDI USB interface is closed"), w)
  transmitter_probe true w =
      let (response, w1) = host.modem_status_request w in (is_sent response, w1)

  unfoldable pub serial_text : Metadata → String
  serial_text metadata = elim metadata.serial [ none ↦ "<no serial>" | some serial ↦ serial ]

  unfoldable pub not_drained : UsbTransport → ℕ → Error
  not_drained usb wait = timeout (
      "C232HD USB serial "
      +s serial_text usb.metadata
      +s " did not drain within "
      +s decimal (wait / 10 ^ 6)
      +s " ms")

  -- `drain`, with at most `fuel` status requests
  unfoldable pub usb_drain : ℕ → ℕ → State → Option (Result Error Unit × State)
  usb_drain fuel wait (usb, w) =
      let (now, w1) = host.clock.now w in
      let (flushed, w2) = flush_writer wait usb.writer w1 in
      elim flushed [
        | err error ↦ some (err error, (usb, w2))
        | ok _ ↦
            elim (poll host.clock (transmitter_probe usb.interface) drain_poll (now + wait)
              (not_drained usb wait) fuel w2) [
                | none ↦ none
                | some (result, w3) ↦ some (result, (usb, w3))
              ]
      ]

  unfoldable pub usb_cancel : State → State
  usb_cancel (usb, w) = (
    record usb { cancelled = true },
    elim usb.rx [ none ↦ w | some _ ↦ host.endpoint.cancel_all w ],
  )

  unfoldable pub usb_counters : State → Counters
  usb_counters (usb, w) = record { rx_errors = usb.rx_errors; rx_overflow = usb.rx_overflow }

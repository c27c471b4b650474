-- ===== src/Glasgow/Transport.antt =====
-- The running `GlasgowTransport` of src/uart/glasgow/transport.rs: its counters, its methods as a
-- `Transport`, and what dropping it does.
pub mod Reads
pub mod Drains
pub mod IdleBit
use Prim.Native.Nat.{bit_and}
use glasgow_tool.Prelude.{
  ℕ, zero, suc, ◌+◌, ◌-◌, ◌/◌, ◌^◌, Bool, true, false, ◌&&◌, not, String, Option, none, some, List,
  [], length, ◌==◌, ltb, leb, if◌then◌else◌, ◌+s◌, decimal,
}
use glasgow_tool.Error.{
  Error, selection, access, protocol, timeout, validation, Result, ok, err, ErrorKind, IoError,
}
use glasgow_tool.Transport.{
  Metadata, Counters, TransferOutcome, complete, failed, TransferFailureKind,
}
use glasgow_tool.Session.{from_millis}
use glasgow_tool.C232.Usb.{error_text}
use glasgow_tool.Glasgow.Management.{Register, Link, Management, read_register, set_fixed_profile}

abbrev pub io_timeout : ℕ
io_timeout = from_millis 50

abbrev pub counter_poll : ℕ
counter_poll = from_millis 250

abbrev pub drain_poll : ℕ
drain_poll = from_millis 10

abbrev pub shutdown_settle : ℕ
shutdown_settle = from_millis 100

abbrev pub tx_idle_bit : ℕ
tx_idle_bit = 2 ^ 31

failure_kind : ErrorKind → TransferFailureKind
failure_kind ErrorKind.interrupted = TransferFailureKind.interrupted
failure_kind ErrorKind.would_block = TransferFailureKind.would_block
failure_kind ErrorKind.timed_out = TransferFailureKind.timed_out
failure_kind ErrorKind.permission_denied = TransferFailureKind.access
failure_kind ErrorKind.broken_pipe = TransferFailureKind.disconnected
failure_kind ErrorKind.not_connected = TransferFailureKind.disconnected
failure_kind ErrorKind.unexpected_eof = TransferFailureKind.disconnected
failure_kind _ = TransferFailureKind.protocol

unfoldable pub map_io_error : IoError → TransferOutcome
unfolding failure_kind
map_io_error error = failed 0 (failure_kind error.kind) error.message

-- nusb's reader and writer of the UART pipes, their two interfaces, and the management link
pub record GlasgowHost (W : Type 0) : Type 0 where
  pub link : Link W
  pub read : ℕ → W → Result IoError (List ℕ) × W
  pub write : List ℕ → W → Result IoError ℕ × W
  pub submit : W → W
  pub set_write_timeout : ℕ → W → W
  pub flush : W → Result IoError Unit × W
  pub cancel_all : W → W
  pub close_rx : W → W
  pub close_tx : W → W

pub record GlasgowTransport : Type 0 where
  pub metadata : Metadata
  pub rx_errors_register : Register
  pub rx_overflow_register : Register
  pub tx_state_register : Register
  pub rx_errors_baseline : ℕ
  pub rx_overflow_baseline : ℕ
  pub rx_errors : ℕ
  pub rx_overflow : ℕ
  pub last_counter_poll : ℕ
  pub cancelled : Bool

-- `state & TX_IDLE_BIT != 0 && state & !TX_IDLE_BIT == 0`
unfoldable pub is_idle : ℕ → Bool
is_idle state = not (bit_and state tx_idle_bit == 0) && (bit_and state 0x7fff_ffff == 0)

drain_flush_error : ℕ → IoError → Error
drain_flush_error wait error = elim error.kind [
  | ErrorKind.timed_out ↦
      timeout ("Glasgow UART USB drain exceeded " +s decimal (wait / 10 ^ 6) +s " ms")
  | _ ↦ access ("Glasgow UART USB drain failed: " +s error.message)
]

unfoldable pub not_idle : ℕ → Error
not_idle wait = timeout ("Glasgow UART did not drain within " +s decimal (wait / 10 ^ 6) +s " ms")

received : Result IoError (List ℕ) → TransferOutcome × List ℕ
received (ok bytes) = (complete (length bytes), bytes)
received (err error) = (map_io_error error, [])

sent : Result IoError ℕ → TransferOutcome
sent (ok completed) = complete completed
sent (err error) = map_io_error error

module _ {W : Type 0} (host : GlasgowHost W) where
  abbrev pub State : Type 0
  State = GlasgowTransport × Management W

  -- Both counters, each from its baseline, and the time of the poll.
  unfoldable pub poll_counters : State → Option (Result Error Unit × State)
  poll_counters (glasgow, m) = elim (read_register host.link glasgow.rx_errors_register m) [
    | none ↦ none
    | some (err error, m1) ↦ some (err error, (glasgow, m1))
    | some (ok errors, m1) ↦ elim (read_register host.link glasgow.rx_overflow_register m1) [
      | none ↦ none
      | some (err error, m2) ↦ some (err error, (glasgow, m2))
      | some (ok overflow, m2) ↦
          let (now, w3) = host.link.clock.now m2.world in
          some (
            ok tt,
            (
              record glasgow {
                rx_errors = errors - glasgow.rx_errors_baseline;
                rx_overflow = overflow - glasgow.rx_overflow_baseline;
                last_counter_poll = now;
              },
              record m2 { world = w3 },
            ),
          )
    ]
  ]

  -- The registers are read only if the last poll is long enough ago.
  unfoldable pub refresh_counters : State → Option (Result Error Unit × State)
  refresh_counters (glasgow, m) =
      let (now, w1) = host.link.clock.now m.world in
      let m1 : Management W = record m { world = w1 } in
      elim (ltb (now - glasgow.last_counter_poll) counter_poll) [
        | true ↦ some (ok tt, (glasgow, m1))
        | false ↦ poll_counters (glasgow, m1)
      ]

  -- An error of the counters is the outcome's failure; the bytes stay counted.
  after_refresh :
      TransferOutcome → List ℕ → Result Error Unit × State → TransferOutcome × List ℕ × State
  after_refresh outcome bytes (ok _, s) = (outcome, bytes, s)
  after_refresh outcome bytes (err error, s) =
      (failed outcome.completed TransferFailureKind.protocol (error_text error), bytes, s)

  unfoldable pub glasgow_read : ℕ → State → Option (TransferOutcome × List ℕ × State)
  unfolding received after_refresh
  glasgow_read capacity (glasgow, m) =
      if glasgow.cancelled
      then some (failed 0 TransferFailureKind.timed_out "cancelled", [], (glasgow, m))
      else let (answer, w1) = host.read capacity m.world in
        let (outcome, bytes) = received answer in
        elim (refresh_counters (glasgow, record m { world = w1 })) [
          | none ↦ none
          | some refreshed ↦ some (after_refresh outcome bytes refreshed)
        ]

  unfoldable pub glasgow_write : List ℕ → State → TransferOutcome × State
  unfolding sent
  glasgow_write bytes (glasgow, m) =
      if glasgow.cancelled
      then (failed 0 TransferFailureKind.timed_out "cancelled", (glasgow, m))
      else let (answer, w1) = host.write bytes m.world in
        (sent answer, (glasgow, record m { world = w1 }))

  unfoldable pub glasgow_submit_tx : State → State
  glasgow_submit_tx (glasgow, m) = (glasgow, record m { world = host.submit m.world })

  -- The flush under the caller's timeout, which is put back whatever comes of it.
  unfoldable pub flush_pipe : ℕ → Management W → Result Error Unit × Management W
  unfolding drain_flush_error
  flush_pipe wait m =
      let (result, w1) = host.flush (host.set_write_timeout wait m.world) in
      let m2 : Management W = record m { world = host.set_write_timeout io_timeout w1 } in
      elim result [ ok _ ↦ (ok tt, m2) | err error ↦ (err (drain_flush_error wait error), m2) ]

  -- One round of the wait for the gateware; `again` is the next round.
  unfoldable pub drain_round :
      (Management W → Option (Result Error Unit × Management W))
      → Register
      → ℕ
      → ℕ
      → Management W
      → Option (Result Error Unit × Management W)
  drain_round again register deadline wait m = elim (read_register host.link register m) [
    | none ↦ none
    | some (err error, m1) ↦ some (err error, m1)
    | some (ok state, m1) ↦ elim (is_idle state) [
      | true ↦ some (ok tt, m1)
      | false ↦
          let (now, w2) = host.link.clock.now m1.world in
          elim (leb deadline now) [
            | true ↦ some (err (not_idle wait), record m1 { world = w2 })
            | false ↦ again (record m1 { world = host.link.clock.sleep drain_poll w2 })
          ]
    ]
  ]

  unfoldable pub drain_loop :
      ℕ → Register → ℕ → ℕ → Management W → Option (Result Error Unit × Management W)
  drain_loop zero register deadline wait m = none
  drain_loop (suc fuel) register deadline wait m =
      drain_round (drain_loop fuel register deadline wait) register deadline wait m

  -- `drain`, with at most `fuel` readings of the state register
  unfoldable pub glasgow_drain : ℕ → ℕ → State → Option (Result Error Unit × Management W)
  glasgow_drain fuel wait (glasgow, m) =
      let (now, w1) = host.link.clock.now m.world in
      let (flushed, m2) = flush_pipe wait (record m { world = w1 }) in
      elim flushed [
        | err error ↦ some (err error, m2)
        | ok _ ↦ drain_loop fuel glasgow.tx_state_register (now + wait) wait m2
      ]

  unfoldable pub glasgow_cancel : State → State
  glasgow_cancel (glasgow, m) =
      (record glasgow { cancelled = true }, record m { world = host.cancel_all m.world })

  -- The counters as they are after a refresh, whose error is ignored.
  unfoldable pub glasgow_counters : State → Option (Counters × State)
  glasgow_counters s = elim (refresh_counters s) [
    | none ↦ none
    | some (answer, s1) ↦
        some (record { rx_errors = s1.0.rx_errors; rx_overflow = s1.0.rx_overflow }, s1)
  ]

  -- `Drop`: the line stays idle for a while, then the voltage is taken away, whatever fails.
  unfoldable pub glasgow_drop : Management W → Management W
  glasgow_drop m =
      let m1 : Management W = record m { world = host.link.clock.sleep shutdown_settle m.world } in
      let m2 = (set_fixed_profile host.link false m1).1 in
      record m2 { world = host.close_tx (host.close_rx m2.world) }

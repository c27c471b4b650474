-- ===== src/Session/Tx/Laws.antt =====
-- What the TX worker relies on: the documented behaviour of a `Transport` (src/uart/transport.rs)
-- and of the reader, in terms of what has crossed each boundary of the process so far.
use glasgow_tool.Prelude.{
  [], ℕ, ◌≤◌, ◌<◌, ◌≡◌, Bool, true, false, ◌==◌, List, ◌++◌, take, length, none, some,
}
use glasgow_tool.Error.{Result, ok, err, IoError}
use glasgow_tool.Transport.{Transport, TransferOutcome}
use glasgow_tool.Session.{map_transfer_failure}
use glasgow_tool.Session.Worker.{Host, write_all_and_flush}

-- The bytes on the wire, the input read, and whether cancellation has been requested.
pub record Views (W : Type 0) : Type 0 where
  pub wire : W → List ℕ
  pub consumed : W → List ℕ
  pub stopped : W → Bool

-- A change of the world that is no transfer: a request to cancel is never taken back.
pub record Quiet {W : Type 0} (v : Views W) (w w' : W) : Type 0 where
  pub same_wire : v.wire w' ≡ v.wire w
  pub same_input : v.consumed w' ≡ v.consumed w
  pub sticky : v.stopped w ≡ true → v.stopped w' ≡ true

-- The bytes that a read of the input gives.
abbrev pub given : Result IoError (List ℕ) → List ℕ
given (ok bytes) = bytes
given (err error) = []

pub record TxLaws {W : Type 0} (transport : Transport W) (host : Host W) (v : Views W)
    : Type 0 where
  -- Bytes count as completed only if they were submitted, and just those went out, in order.
  pub write_fits : (bytes : List ℕ) (w : W) → (transport.write bytes w).0.completed ≤ length bytes
  pub wire-write :
      (bytes : List ℕ) (w : W)
      → v.wire (transport.write bytes w).1
        ≡ v.wire w ++ take (transport.write bytes w).0.completed bytes
  pub input-write : (bytes : List ℕ) (w : W) → v.consumed (transport.write bytes w).1 ≡ v.consumed w
  pub sticky-write :
      (bytes : List ℕ) (w : W) → v.stopped w ≡ true → v.stopped (transport.write bytes w).1 ≡ true
  -- A read takes input and sends nothing.
  pub wire-read_input : (n : ℕ) (w : W) → v.wire (host.read_input n w).1 ≡ v.wire w
  pub input-read_input :
      (n : ℕ) (w : W)
      → v.consumed (host.read_input n w).1 ≡ v.consumed w ++ given (host.read_input n w).0
  -- The flag answers what has been requested.
  pub quiet-is_cancelled : (w : W) → Quiet v w (host.is_cancelled w).1
  pub stopped-is_cancelled : (w : W) → v.stopped (host.is_cancelled w).1 ≡ (host.is_cancelled w).0
  pub is_cancelled-stopped : (w : W) → v.stopped w ≡ true → (host.is_cancelled w).0 ≡ true
  pub quiet-sleep : (n : ℕ) (w : W) → Quiet v w (host.sleep n w)
  pub quiet-submit_tx : (w : W) → Quiet v w (transport.submit_tx w)
  pub quiet-drain : (n : ℕ) (w : W) → Quiet v w (transport.drain n w).1
  pub quiet-output : (bytes : List ℕ) (w : W) → Quiet v w (write_all_and_flush host bytes w).1

-- "Try again", and no byte was taken.
abbrev pub is_retry : TransferOutcome → Bool
is_retry outcome = elim outcome.failure [
  | none ↦ false
  | some f ↦ elim (map_transfer_failure f) [ none ↦ outcome.completed == 0 | some _ ↦ false ]
]

-- `write_transport` may retry for ever only if the transport keeps answering "try again" without
-- taking a byte, and the session is not cancelled. With this measure one of the two comes to an end:
-- it falls at every such answer that comes after the flag was seen clear.
pub record Patience {W : Type 0} (transport : Transport W) (host : Host W) : Type 0 where
  pub retries : W → ℕ
  pub retry :
      (bytes : List ℕ) (w : W)
      → (host.is_cancelled w).0 ≡ false
      → is_retry (transport.write bytes (host.is_cancelled w).1).0 ≡ true
      → retries (transport.write bytes (host.is_cancelled w).1).1 < retries w
  pub retries-write : (bytes : List ℕ) (w : W) → retries (transport.write bytes w).1 ≤ retries w
  pub retries-is_cancelled : (w : W) → retries (host.is_cancelled w).1 ≤ retries w
  pub retries-sleep : (n : ℕ) (w : W) → retries (host.sleep n w) ≤ retries w

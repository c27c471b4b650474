-- ===== src/Transport/Laws.antt =====
-- What `Port` promises as std::io Read and Write (src/uart/transport.rs).
use glasgow_tool.Prelude.{ℕ, ◌≤◌, ◌<◌, ◌≡◌, none, some, List, length, arith, ◌⊎◌}
use glasgow_tool.Error.{Result, ok, err, invalid_data, write_zero, IoError}
use glasgow_tool.Transport.{
  Transport, TransferFailure, TransferOutcome, port_write, io_failure, write,
}

-- A length within the buffer is what std::io::Read asks of `read`, and a byte count above zero is
-- what `write_all` asks of a successful `write`.
abbrev WriteGives : ℕ → TransferOutcome → Result IoError ℕ → Type 0
WriteGives n outcome (ok k) = (0 < k) × (k ≤ n) × (k ≡ outcome.completed)
WriteGives n outcome (err e) =
    ((n < outcome.completed) × (e.kind ≡ invalid_data))
    ⊎ ((outcome.completed ≡ 0)
        × (((f : TransferFailure) × (outcome.failure ≡ some f) × (e ≡ io_failure f))
            ⊎ ((outcome.failure ≡ none) × (e.kind ≡ write_zero))))

port_write-gives : (n : ℕ) (outcome : TransferOutcome) → WriteGives n outcome (port_write n outcome)
unfolding port_write
port_write-gives n outcome = ground arith

-- Whatever the transport answers, `write` of a port keeps the contract of std::io::Write: an answer
-- `Ok(k)` has 0 < k ≤ the bytes given, and k is what the transport counted. It fails with
-- `InvalidData` if the transport counted more than was given; and, if no byte was taken, with the
-- kind and text of the transport's failure, or `WriteZero` if that gave none.
write-gives :
    {W : Type 0} (transport : Transport W) (bytes : List ℕ) (w : W)
    → WriteGives (length bytes) (transport.write bytes w).0 (write transport bytes w).0
unfolding write
write-gives transport bytes w = port_write-gives (length bytes) (transport.write bytes w).0

-- ===== src/C232/Vcp/Kinds.antt =====
-- Error kinds on their way from the serial driver to the user of a port (src/uart/c232/vcp.rs,
-- src/uart/transport.rs).
use glasgow_tool.Prelude.{ℕ, ◌≡◌, arith}
use glasgow_tool.Error.{
  err, ErrorKind, interrupted, would_block, timed_out, permission_denied, broken_pipe,
  not_connected, unexpected_eof, invalid_data, write_zero, other, IoError,
}
use glasgow_tool.Transport.{port_read, port_write, io_failure}
use glasgow_tool.C232.Vcp.{io_outcome}

-- What is left of a kind: a lost connection is one kind, and what has no kind of its own is a fault of
-- the protocol.
abbrev pub seen_kind : ErrorKind → ErrorKind
seen_kind interrupted = interrupted
seen_kind would_block = would_block
seen_kind timed_out = timed_out
seen_kind permission_denied = permission_denied
seen_kind broken_pipe = not_connected
seen_kind not_connected = not_connected
seen_kind unexpected_eof = not_connected
seen_kind invalid_data = invalid_data
seen_kind write_zero = invalid_data
seen_kind other = invalid_data

-- An error of the serial driver reaches the user of the port, on a read and on a write, with its text,
-- and with its kind up to `seen_kind`.
pub kinds_kept :
    (n : ℕ) (error : IoError)
    → (port_read n (io_outcome (err error))
        ≡ err (record { kind = seen_kind error.kind; message = error.message }))
      × (port_write n (io_outcome (err error))
          ≡ err (record { kind = seen_kind error.kind; message = error.message }))
unfolding port_read port_write io_outcome io_failure
kinds_kept n error = ground arith

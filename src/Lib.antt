-- ===== src/Lib.antt =====
-- A library and two commands for UART access: `guart` over a Glasgow board, `c232uart` over an
-- FTDI C232HD cable, by its serial-port driver or by USB.
--
-- A command parses its options, opens a port, puts the terminal into raw mode for a console, and runs
-- a session. Opening a port finds the device on the bus, makes it ready and claims it. A session moves
-- the bytes of standard input to a transport and the bytes of the transport to standard output. It has
-- a TX worker, an RX worker and a coordinator, which share a cancellation flag, counters and a channel
-- of worker events, and it tells an observer of its phases. A transport is a trait with three
-- implementations; each of them waits for its device to drain in a loop with a deadline.
--
-- The files, and the code they are about:
--
--   Error            src/error.rs: the error categories, and `Result`
--   Io, Act          fallible calls in a row, that always return (Io) or may not (Act: a panic, or no
--                    fuel left); their children have the rules for invariants and for what holds after
--                    a success and after a failure
--   Transport        src/uart/transport.rs: `Transport` (a record of operations on the world),
--                    `TransferOutcome`, and `Port` as std::io Read and Write
--   Session          src/uart/session.rs: options, statistics, stop reasons, worker events
--   Session/Worker   the world that a worker acts on, and its actions
--   Session/Tx       `write_transport` and `tx_worker`; below it the laws of a transport, what goes
--                    out (Wire), that it ends (Returns, Kept, Ending), the worker's input and
--                    the wire (Sending, Relayed, Looping, Relay), the escape (Escape), its events
--                    (Silent)
--   Session/Rx       `rx_worker`; below it the laws it relies on, its cases and its output (Cases,
--                    Output), that it ends (Returns), its events (Sends)
--   Session/Coordinator  `Coordinator::run`: its local variables, and one round as the three `if`s
--                    and the `match` of the code; below it the invariant, the failures, the ending,
--                    the events
--   Session/Run      `run_session_observed`, `spawn_workers` and `WorkerHandles::join`; below it the
--                    report (Laws), the order of the events (Events), and the session with its
--                    workers: the channel (Channel), the bytes (Transfers), the end (Ends)
--   Telemetry        src/uart/telemetry.rs: events, the record that `NdjsonObserver` writes, observers
--   Cli              src/bin/common/mod.rs: exit codes, and their agreement with the event log
--   Cli/Parsing      src/bin/common/mod.rs: `parse_baud`
--   Cli/Duration     src/bin/common/mod.rs: `parse_duration`; below it whole numbers of seconds (Whole)
--                    and the longest duration (Bounds)
--   Cli/Float        the part of f64 that `parse_duration` uses, and what it rounds to itself (Exact)
--   Cli/Console      src/bin/common/mod.rs and both `run`: the arms Console and Stream, with the guard
--                    of the raw terminal
--   Cli/Guart        src/bin/common/guart.rs: the list and `run`
--   Cli/C232uart     src/bin/common/c232uart.rs, src/bin/c232uart.rs: the check, the list, `run`, `main`
--   Baud             the range, the clamp and the tolerance that both backends share
--   C232/Status      src/uart/c232/usb.rs: `strip_ftdi_status_from`
--   C232/Usb         src/uart/c232/usb.rs: `UsbRx::read` and the methods of `UsbTransport`
--   C232/Trait       src/uart/c232/usb.rs: `UsbTransport` as a `Transport`, under the RX worker
--   C232/Discovery   src/uart/c232/usb.rs: which USB devices are cables, their order and choice, and
--                    `discover_endpoints`
--   C232/Open        src/uart/c232/usb.rs: `UsbTransport::open` and `drop`; below it the kernel
--                    driver (Driver) and the transfers in flight (Transfers)
--   C232/Baud        src/uart/c232/vcp.rs: `ftdi_high_speed_baud`
--   C232/Devices     src/uart/c232/vcp.rs: which serial ports are cables, and which one is meant;
--                    below it what fitting means (Fits) and the selection (Selection)
--   C232/Paths       src/uart/c232/vcp.rs: the equality of paths, by their components, as on Unix
--   C232/Sysfs       src/uart/c232/vcp.rs: `linux_usb_metadata` and `stable_path`; below it the nearest
--                    directory (Nearest) and the links (Links)
--   C232/Vcp         src/uart/c232/vcp.rs: `VcpTransport`
--   C232/Port        src/uart/c232/mod.rs: `list_devices` and `open` over both backends
--   Glasgow/Baud     src/uart/glasgow/transport.rs: `baud_divisor`
--   Glasgow/Management  src/uart/glasgow/management.rs: `Management` and its commands
--   Glasgow/Device      src/uart/glasgow/device.rs: revisions, the lists, `select_device`
--   Glasgow/Resource    src/uart/glasgow/management.rs: the manifest and `validate_resource_data`
--   Glasgow/Firmware    src/uart/glasgow/management.rs: `upload_fx2_firmware`
--   Glasgow/Open        src/uart/glasgow/transport.rs: `load_bitstream`, the set-up of `open`, and its
--                       guard `SetupCleanup`
--   Glasgow/Provide     src/uart/glasgow/mod.rs, src/uart/glasgow/transport.rs: `open`, from the bus on
--   Glasgow/Build       build.rs: the checks of the manifests, the copies and the table of resources;
--                       below it what is written (Table), and that it is accepted (Runtime)
--   Glasgow/Transport   src/uart/glasgow/transport.rs: the counters and methods of `GlasgowTransport`
--   Poll             the wait of a drain: probe, give up at the deadline, pause, again
--   Prelude          shared names, Boolean tests, list lemmas, sorting, text
--   Tests            concrete runs
--
-- The workers are functions on a world: the flag, the reader, the writer and the transport are
-- operations that take the world and return it, so that what another thread or the device does in
-- between is in the world. The coordinator is driven by a list of rounds, each with what that round
-- reads: the instants of its calls of `Instant::now`, whether the flag was set, what the channel
-- gave, what the observer answered. A theorem about all such lists is about all interleavings;
-- Session/Run/Channel relates a list to what the two workers sent.
--
-- A destructor is a function that the code's scopes call: the guard of the Glasgow set-up and that of
-- the raw terminal act on the state in which the guarded part ended, whether it succeeded or failed.
--
-- A loop takes fuel and gives `none` when it has none left. `write_transport` needs more fuel than
-- the bytes to write and the retries that the transport still asks for; a worker needs a read for
-- each one still to come before the input ends or the session is cancelled, and one more; a drain
-- needs a probe for each unit of its timeout, and so do the waits for the FPGA (two seconds) and
-- for a board after its firmware (ten seconds); the strip of a transfer has one unit for each byte,
-- and a packet takes at least two; the upload of a segment has one unit for each byte; the
-- submission of the USB reads has one for each of its eight transfers; the length of a number in
-- binary has the number itself.
--
-- Numbers are natural numbers. The counters wrap at 2 ^ 64 as `fetch_add` does; a time is a number of
-- nanoseconds, and a difference of instants stops at 0 as `saturating_duration_since` does. An address
-- of the controller's RAM wraps at 2 ^ 16.
--
-- Not modelled: the USB, serial-port, JSON, argument and terminal libraries, whose calls are
-- operations of the world; the file system, and what the code has in place of sysfs on other systems
-- than Linux; the gateware, the resources and the scripts.
pub mod Prelude
pub mod Error
pub mod Io
pub mod Act
pub mod Poll
pub mod Transport
pub mod Session
pub mod Telemetry
pub mod Cli
pub mod Baud
pub mod C232
pub mod Glasgow
pub mod Tests

-- ===== src/Glasgow/Open.antt =====
-- Opening a Glasgow (src/uart/glasgow/transport.rs, src/uart/glasgow/management.rs): the bitstream,
-- the UART pipes, and the guard that undoes a set-up that failed. nusb is a parameter.
pub mod Loading
pub mod Pipes
pub mod Ends
use glasgow_tool.Prelude.{
  same_bytes, ℕ, zero, suc, ◌+◌, Bool, true, false, ◌||◌, not, String, Option, none, some, List, [],
  ◌∷◌, ◌==◌, leb, length, if◌then◌else◌, ◌+s◌, is_none,
}
use glasgow_tool.Error.{Error, access, protocol, timeout, Result, ok, err, IoError}
use glasgow_tool.Act.{Act, ◌>>=◌, ◌>>◌, pure, fail, give, after}
use glasgow_tool.Session.{from_millis, from_secs}
use glasgow_tool.Glasgow.Baud.{baud_divisor}
use glasgow_tool.Glasgow.Management.{
  Link, Management, fpga_status, finish_fpga_load, write_register, read_register, set_fixed_profile,
}
use glasgow_tool.Glasgow.Resource.{ResourceManifest, PipeEndpoint}

-- `ValidatedResource`: the manifest, the bitstream and its identifier.
pub record ValidatedResource : Type 0 where
  pub manifest : ResourceManifest
  pub bitstream : List ℕ
  pub bitstream_id : List ℕ

-- nusb's device: its interfaces by number, their endpoints with their packet sizes, the writer of
-- the configuration endpoint, and the management link
pub record Device (W : Type 0) : Type 0 where
  pub link : Link W
  pub claim_interface : ℕ → W → Result String Unit × W
  pub set_alt_setting : ℕ → ℕ → W → Result String Unit × W
  pub bulk_in : ℕ → ℕ → W → Result String ℕ × W
  pub bulk_out : ℕ → ℕ → W → Result String ℕ × W
  pub write_bitstream : List ℕ → W → Result IoError Unit × W
  pub flush_bitstream : W → Result IoError Unit × W

-- The text of a configuration or of none is the identifier of this bitstream.
unfoldable pub is_loaded : List ℕ → Option (List ℕ) → Bool
is_loaded id none = false
is_loaded id (some other) = same_bytes other id

abbrev pub mismatch : String → String → Error
mismatch what error = protocol (what +s " endpoint mismatch: " +s error)

upload_error : IoError → Error
upload_error error = access ("Glasgow FPGA upload failed: " +s error.message)

pub record SetupCleanup : Type 0 where
  pub rx_interface : Option ℕ
  pub tx_interface : Option ℕ
  pub vio_enabled : Bool
  pub armed : Bool

module _ {W : Type 0} where
  -- A call of the device under a manager, with its category of error.
  unfoldable pub call_device :
      {E A : Type 0} → (E → Error) → (W → Result E A × W) → Act (Management W) A
  call_device category f m =
      let (answer, w1) = f m.world in
      elim answer [
        | ok a ↦ some (ok a, record m { world = w1 })
        | err error ↦ some (err (category error), record m { world = w1 })
      ]

  -- An operation of the manager that always returns.
  unfoldable pub step :
      {A : Type 0} → (Management W → Result Error A × Management W) → Act (Management W) A
  step f m = some (f m)

module _ {W : Type 0} (device : Device W) where
  -- `writer.write_all(…).and_then(|()| writer.flush())`
  unfoldable pub upload : List ℕ → W → Result IoError Unit × W
  upload bitstream w =
      let (written, w1) = device.write_bitstream bitstream w in
      elim written [ ok _ ↦ device.flush_bitstream w1 | err error ↦ (err error, w1) ]

  -- One round of the wait for the FPGA; `again` is the next.
  unfoldable pub wait_round :
      Act (Management W) Unit → List ℕ → ℕ → Option (List ℕ) → Act (Management W) Unit
  wait_round again id deadline status m =
      if is_loaded id status
      then some (ok tt, m)
      else let (now, w1) = device.link.clock.now m.world in
        if leb deadline now
        then some (
          err (timeout "Glasgow FPGA did not report configuration complete"),
          record m { world = w1 },
        )
        else again (record m { world = device.link.clock.sleep (from_millis 10) w1 })

  -- The loop at the end of `load_bitstream`, of at most `fuel` rounds
  unfoldable pub wait_loaded : ℕ → List ℕ → ℕ → Act (Management W) Unit
  unfolding wait_round
  wait_loaded zero id deadline m = none
  wait_loaded (suc fuel) id deadline m =
      let again = wait_loaded fuel id deadline in
      after (step (fpga_status device.link) m) (wait_round again id deadline)

  -- `load_bitstream`, after the look whether the FPGA has it already
  unfoldable pub load_anew : ℕ → ValidatedResource → Act (Management W) Unit
  unfolding upload_error upload
  load_anew fuel resource = do
    call_device (λ error. access ("cannot claim Glasgow configuration interface: " +s error))
        (device.claim_interface 1)
    call_device (λ error. access ("cannot select Glasgow FPGA configuration mode: " +s error))
        (device.set_alt_setting 1 3)
    packet ← call_device (mismatch "Glasgow configuration") (device.bulk_out 1 0x02)
    call_device upload_error (upload resource.bitstream)
    finish_fpga_load device.link fuel (length resource.bitstream) resource.bitstream_id
    call_device (λ error. access ("cannot close Glasgow configuration interface: " +s error))
        (device.set_alt_setting 1 0)
    λ m.
        let (now, w1) = device.link.clock.now m.world in
        wait_loaded fuel resource.bitstream_id (now + from_secs 2) (record m { world = w1 })

  unfoldable pub load_bitstream : ℕ → ValidatedResource → Act (Management W) Unit
  unfolding load_anew
  load_bitstream fuel resource = do
    status ← step (fpga_status device.link)
    if is_loaded resource.bitstream_id status then pure tt else load_anew fuel resource

  -- What the set-up works on: the guard, and the manager that it borrows.
  pub record Guarded : Type 0 where
    pub cleanup : SetupCleanup
    pub manager : Management W

  abbrev pub new_guard : SetupCleanup
  new_guard = record { rx_interface = none; tx_interface = none; vio_enabled = false; armed = true }

  unfoldable pub managed : {A : Type 0} → Act (Management W) A → Act Guarded A
  managed m s = elim (m s.manager) [
    | none ↦ none
    | some (r, m1) ↦ some (r, record s { manager = m1 })
  ]

  unfoldable pub note : (SetupCleanup → SetupCleanup) → Act Guarded Unit
  note f s = some (ok tt, record s { cleanup = f s.cleanup })

  -- The rate and the baselines of the two counters, once the device is set up.
  pub record Configured : Type 0 where
    pub actual_baud : ℕ
    pub rx_errors_baseline : ℕ
    pub rx_overflow_baseline : ℕ

  -- Both interfaces are claimed, and their alternate settings selected.
  unfoldable pub enable_pipes : PipeEndpoint → PipeEndpoint → Act Guarded Unit
  enable_pipes rx tx = do
    managed (
        call_device (λ error. access ("cannot claim Glasgow UART RX interface: " +s error))
          (device.claim_interface rx.interface))
    note (λ c. record c { rx_interface = some rx.interface })
    managed (
        call_device (λ error. access ("cannot claim Glasgow UART TX interface: " +s error))
          (device.claim_interface tx.interface))
    note (λ c. record c { tx_interface = some tx.interface })
    managed (
        call_device (λ error. access ("cannot enable Glasgow UART RX: " +s error))
          (device.set_alt_setting rx.interface rx.alternate_setting))
    managed (
        call_device (λ error. access ("cannot enable Glasgow UART TX: " +s error))
          (device.set_alt_setting tx.interface tx.alternate_setting))

  unfoldable pub open_endpoints : PipeEndpoint → PipeEndpoint → Act Guarded Unit
  open_endpoints rx tx = do
    read_packet ←
        managed (call_device (mismatch "Glasgow UART RX") (device.bulk_in rx.interface rx.endpoint))
    write_packet ←
        managed
          (call_device (mismatch "Glasgow UART TX") (device.bulk_out tx.interface tx.endpoint))
    give (
        if not (read_packet == rx.max_packet) || not (write_packet == tx.max_packet)
        then err (protocol "Glasgow UART endpoint max-packet mismatch")
        else ok tt)

  -- The divisor, the voltage, and the baselines.
  unfoldable pub configure : ResourceManifest → ℕ → Act Guarded Configured
  configure manifest requested_baud = do
    (divisor, actual_baud) ← give (baud_divisor requested_baud)
    managed (write_register device.link manifest.registers.baud_divisor divisor)
    managed (step (set_fixed_profile device.link true))
    note (λ c. record c { vio_enabled = true })
    errors ← managed (read_register device.link manifest.registers.rx_errors)
    overflow ← managed (read_register device.link manifest.registers.rx_overflow)
    note (λ c. record c { armed = false })
    pure (record {
      actual_baud = actual_baud;
      rx_errors_baseline = errors;
      rx_overflow_baseline = overflow;
    })

  unfoldable pub set_up : ResourceManifest → ℕ → Act Guarded Configured
  unfolding enable_pipes open_endpoints configure
  set_up manifest requested_baud = do
    enable_pipes manifest.pipe.rx manifest.pipe.tx
    open_endpoints manifest.pipe.rx manifest.pipe.tx
    configure manifest requested_baud

  unfoldable pub reset_interface : Option ℕ → W → W
  reset_interface none w = w
  reset_interface (some interface) w = (device.set_alt_setting interface 0 w).1

  -- `SetupCleanup::drop`: whatever fails is passed over.
  unfoldable pub drop_guard : Guarded → Management W
  unfolding reset_interface
  drop_guard s =
      let c = s.cleanup in
      let m1 =
        if c.vio_enabled then (set_fixed_profile device.link false s.manager).1 else s.manager in
      let reset : Management W = record m1 {
        world = reset_interface c.tx_interface (reset_interface c.rx_interface m1.world);
      } in
      if c.armed then reset else s.manager

  -- The set-up under its guard, which is dropped at the end.
  unfoldable pub open_pipes : ResourceManifest → ℕ → Act (Management W) Configured
  unfolding drop_guard
  open_pipes manifest requested_baud m =
      elim (set_up manifest requested_baud (record { cleanup = new_guard; manager = m })) [
        | none ↦ none
        | some (r, s) ↦ some (r, drop_guard s)
      ]

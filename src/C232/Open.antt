-- ===== src/C232/Open.antt =====
-- Opening and closing the USB transport (src/uart/c232/usb.rs): the kernel driver, the control
-- requests, the endpoints. nusb is a parameter.
pub mod Driver
pub mod Transfers
use Prim.Native.Nat.{Ordering}
use Prim.Native.String.{compare}
use text.Mathlib.Text
use glasgow_tool.Prelude.{
  ℕ, zero, suc, ◌*◌, Bool, true, false, ◌&&◌, ◌||◌, not, String, Option, none, some, List, [], ◌∷◌,
  ◌==◌, ltb, if◌then◌else◌, ◌+s◌, decimal, first_then, sort_by,
}
use glasgow_tool.Error.{Error, access, protocol, selection, Result, ok, err}
use glasgow_tool.Io.{Io, ◌>>=◌, ◌>>◌, pure, fail, give, call}
use glasgow_tool.Transport.{Metadata}
use glasgow_tool.Session.{from_millis}
use glasgow_tool.C232.Baud.{
  BaudResult, ftdi_high_speed_baud, interface_index, baud_value, baud_index,
}
use glasgow_tool.C232.Devices.{ftdi_vid, ftdi_pid, product_name, is_number, is_text}
use glasgow_tool.C232.Discovery.{
  UsbInfo, UsbDeviceInfo, InterfaceDescriptor, usb_device_order, usb_cables, usb_matches,
  the_usb_one, discover_endpoints,
}
use glasgow_tool.C232.Usb.{UsbRx, UsbTransport}

abbrev pub sio_reset : ℕ
sio_reset = 0

abbrev pub sio_modem_ctrl : ℕ
sio_modem_ctrl = 1

abbrev pub sio_set_flow_ctrl : ℕ
sio_set_flow_ctrl = 2

abbrev pub sio_set_baud : ℕ
sio_set_baud = 3

abbrev pub sio_set_data : ℕ
sio_set_data = 4

abbrev pub sio_set_latency : ℕ
sio_set_latency = 9

abbrev pub reset_device : ℕ
reset_device = 0

abbrev pub purge_rx : ℕ
purge_rx = 1

abbrev pub purge_tx : ℕ
purge_tx = 2

abbrev pub modem_dtr_rts_inactive : ℕ
modem_dtr_rts_inactive = 0x0300

abbrev pub usb_transfer_count : ℕ
usb_transfer_count = 8

-- An error of nusb: its kind is NotFound or another.
pub record UsbError : Type 0 where
  pub is_not_found : Bool
  pub os_error : Option ℕ
  pub message : String

-- nusb's bus, the device that is open on it, its kernel driver and its two endpoints; `is_linux` is
-- `cfg!(target_os = "linux")`.
pub record UsbBus (W : Type 0) : Type 0 where
  pub is_linux : Bool
  pub list_devices : W → Result String (List UsbInfo) × W
  pub open_device : UsbDeviceInfo → W → Result String Unit × W
  pub configurations : W → List (List InterfaceDescriptor)
  pub detach_kernel_driver : W → Result UsbError Unit × W
  pub attach_kernel_driver : W → Result UsbError Unit × W
  pub claim_interface : W → Result String Unit × W
  pub control_out : ℕ → ℕ → ℕ → W → Result String Unit × W
  pub in_endpoint : ℕ → W → Result String Unit × W
  pub out_endpoint : ℕ → W → Result String Unit × W
  pub pending_in : W → ℕ
  pub submit_in : W → W
  pub cancel_in : W → W
  pub complete_in : W → Bool × W
  pub pending_out : W → ℕ
  pub cancel_out : W → W
  pub complete_out : W → Bool × W
  pub release_interface : W → W
  pub sleep : ℕ → W → W

-- `cannot <what> for C232HD serial <serial> at <path>: <error>`
unfoldable pub driver_error : String → UsbDeviceInfo → UsbError → Error
driver_error what selected error = access (
    "cannot " +s what +s " for C232HD serial " +s selected.serial +s " at " +s selected.path +s ": "
    +s error.message)

-- The driver was not there: nusb's NotFound, or ENODATA on Linux.
unfoldable pub was_detached : Bool → UsbError → Bool
was_detached is_linux error = error.is_not_found || (is_linux && is_number 61 error.os_error)

module _ {W : Type 0} (bus : UsbBus W) where
  unfoldable pub list_devices : Io W (List UsbDeviceInfo)
  unfolding usb_device_order
  list_devices = do
    infos ← call (λ error. access ("cannot enumerate USB devices: " +s error)) bus.list_devices
    pure (sort_by usb_device_order (usb_cables infos))

  unfoldable pub select_device : Option String → Io W UsbDeviceInfo
  unfolding list_devices
  select_device serial = do devices ← list_devices; give (the_usb_one (usb_matches serial devices))

  unfoldable pub control_out : ℕ → ℕ → ℕ → Io W Unit
  control_out request value index =
      call (λ error. access ("FTDI control request " +s decimal request +s " failed: " +s error))
        (bus.control_out request value index)

  unfoldable pub configure_ftdi : ℕ → Io W ℕ
  unfolding control_out
  configure_ftdi requested_baud = do
    control_out sio_reset reset_device interface_index
    control_out sio_reset purge_rx interface_index
    control_out sio_reset purge_tx interface_index
    control_out sio_set_latency 16 interface_index
    baud ← give (ftdi_high_speed_baud requested_baud)
    control_out sio_set_baud (baud_value baud.encoded_divisor) (baud_index baud.encoded_divisor)
    control_out sio_set_data 8 interface_index
    control_out sio_set_flow_ctrl 0 interface_index
    control_out sio_modem_ctrl modem_dtr_rts_inactive interface_index
    pure baud.actual

  -- The loop of `UsbRx::new`, of at most `fuel` rounds: transfers are submitted while there are too few.
  unfoldable pub fill : ℕ → W → W
  fill zero w = w
  fill (suc fuel) w =
      let filled = fill fuel (bus.submit_in w) in
      if ltb (bus.pending_in w) usb_transfer_count then filled else w

  abbrev pub new_rx : ℕ → UsbRx
  new_rx max_packet = record {
    pending_payload = [];
    max_packet = max_packet;
    last_line_status = none;
  }

  -- `UsbRx::new`
  unfoldable pub usb_rx_new : ℕ → Io W UsbRx
  usb_rx_new max_packet w = (ok (new_rx max_packet), fill usb_transfer_count w)

  -- The closure `setup` of `open`
  unfoldable pub setup : ℕ → ℕ → ℕ → ℕ → Io W (UsbRx × ℕ)
  unfolding configure_ftdi usb_rx_new
  setup rx_address tx_address max_packet requested_baud = do
    call (λ error. access ("cannot claim C232HD USB interface: " +s error)) bus.claim_interface
    actual_baud ← configure_ftdi requested_baud
    call (λ error. protocol ("FTDI RX endpoint mismatch: " +s error)) (bus.in_endpoint rx_address)
    call (λ error. protocol ("FTDI TX endpoint mismatch: " +s error)) (bus.out_endpoint tx_address)
    rx ← usb_rx_new max_packet
    pure (rx, actual_baud)

  unfoldable pub reattach_first : UsbDeviceInfo → Io W Unit
  unfolding driver_error
  reattach_first selected = do
    call (driver_error "restore the VCP driver" selected) bus.attach_kernel_driver
    call (driver_error "detach the restored VCP driver" selected) bus.detach_kernel_driver

  -- The `match` on `detach_kernel_driver`: if the driver was not there, it is attached first.
  unfoldable pub detach_driver : UsbDeviceInfo → Io W Unit
  unfolding driver_error reattach_first
  detach_driver selected w =
      let (answer, w1) = bus.detach_kernel_driver w in
      elim answer [
        | ok _ ↦ (ok tt, w1)
        | err error ↦
            if was_detached bus.is_linux error
            then reattach_first selected w1
            else (err (driver_error "detach the VCP driver" selected error), w1)
      ]

  abbrev pub opened : UsbDeviceInfo → ℕ → UsbRx × ℕ → UsbTransport
  opened selected requested_baud (rx, actual_baud) = record {
    metadata = record {
      backend = "usb";
      serial = some selected.serial;
      path = some selected.path;
      requested_baud = requested_baud;
      actual_baud = actual_baud;
      minimum_baud = 9600;
      maximum_baud = 12_000_000;
    };
    interface = true;
    rx = some rx;
    writer = true;
    rx_errors = 0;
    rx_overflow = 0;
    cancelled = false;
    driver_detached = true;
  }

  -- The `match` on `setup`: the driver is given back when it failed.
  unfoldable pub keep_or_restore :
      UsbDeviceInfo → ℕ → Result Error (UsbRx × ℕ) × W → Result Error UsbTransport × W
  keep_or_restore selected requested_baud (ok value, w) =
      (ok (opened selected requested_baud value), w)
  keep_or_restore selected requested_baud (err error, w) =
      (err error, (bus.attach_kernel_driver w).1)

  unfoldable pub find_endpoints : Io W (ℕ × ℕ × ℕ)
  find_endpoints w = (discover_endpoints (bus.configurations w), w)

  -- `open`, from the driver on
  unfoldable pub take_over : UsbDeviceInfo → ℕ → ℕ × ℕ × ℕ → Io W UsbTransport
  unfolding detach_driver keep_or_restore
  take_over selected requested_baud (rx_address, tx_address, max_packet) = do
    detach_driver selected
    λ w.
        keep_or_restore selected requested_baud
          (setup rx_address tx_address max_packet requested_baud w)

  unfoldable pub open_selected : ℕ → UsbDeviceInfo → Io W UsbTransport
  unfolding find_endpoints take_over
  open_selected requested_baud selected = do
    call
        (λ error. access (
          "cannot open C232HD USB serial " +s selected.serial +s " at " +s selected.path +s ": "
          +s error))
        (bus.open_device selected)
    found ← find_endpoints
    take_over selected requested_baud found

  unfoldable pub usb_open : Option String → ℕ → Io W UsbTransport
  unfolding select_device open_selected
  usb_open serial requested_baud = do
    selected ← select_device serial
    open_selected requested_baud selected

  -- The transfers that are still pending are waited for, of at most `fuel` of them.
  unfoldable pub reap : (W → ℕ) → (W → Bool × W) → ℕ → W → W
  reap pending complete zero w = w
  reap pending complete (suc fuel) w =
      let (completed, w1) = complete w in
      let rest = reap pending complete fuel w1 in
      if pending w == 0 then w else if completed then rest else w1

  -- `cancel_all`, and the wait for what it cancelled
  unfoldable pub stop_endpoint : (W → W) → (W → ℕ) → (W → Bool × W) → W → W
  unfolding reap
  stop_endpoint cancel pending complete w =
      let w1 = cancel w in reap pending complete (pending w1) w1

  -- The driver is attached, in at most `tries` tries.
  unfoldable pub restore_driver : ℕ → W → W
  restore_driver zero w = w
  restore_driver (suc tries) w =
      let (answer, w1) = bus.attach_kernel_driver w in
      let again = restore_driver tries (bus.sleep (from_millis 10) w1) in
      elim answer [ ok _ ↦ w1 | err _ ↦ again ]

  unfoldable pub stop_reader : Option UsbRx → W → W
  unfolding stop_endpoint
  stop_reader none w = w
  stop_reader (some _) w = stop_endpoint bus.cancel_in bus.pending_in bus.complete_in w

  -- `UsbTransport::drop`
  unfoldable pub usb_drop : UsbTransport → W → W
  unfolding stop_endpoint restore_driver stop_reader
  usb_drop usb w =
      let w1 = stop_reader usb.rx w in
      let w2 =
        if usb.writer
        then stop_endpoint bus.cancel_out bus.pending_out bus.complete_out w1
        else w1 in
      let w3 = bus.release_interface w2 in if usb.driver_detached then restore_driver 10 w3 else w3

-- ===== src/Glasgow/Firmware.antt =====
-- `upload_fx2_firmware` of src/uart/glasgow/management.rs: the writes to the controller's RAM, and the
-- wait until the board is back on the bus. nusb is a parameter.
pub mod Ram
pub mod Back
use text.Mathlib.Text
use glasgow_tool.Prelude.{
  ℕ, zero, suc, ◌+◌, ◌*◌, ◌%◌, ◌^◌, Bool, true, false, ◌&&◌, ◌||◌, not, String, Option, none, some,
  List, [], ◌∷◌, ◌==◌, ltb, leb, length, take, drop, if◌then◌else◌, ◌+s◌,
}
use glasgow_tool.Error.{Error, access, protocol, timeout, Result, ok, err}
use glasgow_tool.Session.{from_millis, from_secs}
use glasgow_tool.Poll.{Clock}
use glasgow_tool.Act.{Act, ◌>>=◌, ◌>>◌, pure, fail, give, after, call}
use glasgow_tool.Glasgow.Device.{DeviceInfo, NativeInfo, list_devices, glasgow_vid, glasgow_pid}
use glasgow_tool.Glasgow.Resource.{FirmwareSegment, decode_hex}

abbrev pub cypress_ram : ℕ
cypress_ram = 0xa0

abbrev pub cypress_cpucs : ℕ
cypress_cpucs = 0xe600

-- nusb's bus and the device that is open on it: `control_out` of a vendor request to the device, with
-- its request, value, index and data.
pub record Bus (W : Type 0) : Type 0 where
  pub enumerate : W → Result String (List NativeInfo) × W
  pub open_device : NativeInfo → W → Result String Unit × W
  pub claim_interface : ℕ → W → Result String Unit × W
  pub control_out : ℕ → ℕ → ℕ → List ℕ → W → Result String Unit × W
  pub close : W → W
  pub clock : Clock W

-- `candidate.serial == selected.serial && candidate.path == selected.path`
abbrev pub same_serial : Option String → Option String → Bool
same_serial none none = true
same_serial (some a) (some b) = Text.◌==◌ a b
same_serial _ _ = false

unfoldable pub is_same_board : DeviceInfo → DeviceInfo → Bool
is_same_board selected candidate =
    same_serial candidate.serial selected.serial && Text.◌==◌ candidate.path selected.path

unfoldable pub find_board : DeviceInfo → List DeviceInfo → Option DeviceInfo
unfolding is_same_board
find_board selected [] = none
find_board selected (device ∷ devices) =
    let rest = find_board selected devices in
    if is_same_board selected device then some device else rest

abbrev pub chunk_bytes : ℕ
chunk_bytes = 4096

module _ {W : Type 0} (bus : Bus W) where
  unfoldable pub ram_write : ℕ → List ℕ → Act W Unit
  ram_write address bytes =
      call (λ error. access ("Cypress RAM upload failed: " +s error))
        (bus.control_out cypress_ram address 0 bytes)

  -- One chunk, at its offset, which is to fit 16 bits.
  unfoldable pub write_chunk : ℕ → ℕ → List ℕ → Act W Unit
  unfolding ram_write
  write_chunk address offset chunk =
      if ltb offset (2 ^ 16)
      then ram_write ((address + offset) % 2 ^ 16) chunk
      else fail (protocol "FX2 firmware segment is too large")

  -- The loop over `data.chunks(4096)`, of at most `fuel` chunks
  unfoldable pub write_chunks : ℕ → ℕ → ℕ → List ℕ → Act W Unit
  write_chunks fuel address index [] = pure tt
  write_chunks zero address index (b ∷ bytes) = λ w. none
  write_chunks (suc fuel) address index (b ∷ bytes) = do
    write_chunk address (index * chunk_bytes) (take chunk_bytes (b ∷ bytes))
    write_chunks fuel address (suc index) (drop chunk_bytes (b ∷ bytes))

  unfoldable pub write_segment : FirmwareSegment → Act W Unit
  write_segment segment = do
    bytes ← give (decode_hex segment.data_hex)
    write_chunks (length bytes) segment.address 0 bytes

  unfoldable pub write_segments : List FirmwareSegment → Act W Unit
  write_segments [] = pure tt
  write_segments (segment ∷ segments) = do write_segment segment; write_segments segments

  -- The controller is held in reset while its RAM is written.
  unfoldable pub write_firmware : List FirmwareSegment → Act W Unit
  unfolding ram_write
  write_firmware segments = do
    ram_write cypress_cpucs (1 ∷ [])
    write_segments segments
    ram_write cypress_cpucs (0 ∷ [])

  -- `list_devices` on this bus
  unfoldable pub boards_now : W → Result Error (List DeviceInfo) × W
  boards_now w = let (infos, w1) = bus.enumerate w in (list_devices infos, w1)

  -- One round of the wait; `again` is the next.
  unfoldable pub look :
      Act W DeviceInfo
      → DeviceInfo
      → ℕ
      → Result Error (List DeviceInfo) × W
      → Option (Result Error DeviceInfo × W)
  look again selected deadline (err error, w) = some (err error, w)
  look again selected deadline (ok devices, w) = elim (find_board selected devices) [
    | some device ↦ some (ok device, w)
    | none ↦
        let (now, w1) = bus.clock.now w in
        if leb deadline now
        then some (err (timeout "Glasgow did not re-enumerate after FX2 firmware upload"), w1)
        else again (bus.clock.sleep (from_millis 100) w1)
  ]

  -- The loop, of at most `fuel` looks
  unfoldable pub wait_board : ℕ → DeviceInfo → ℕ → Act W DeviceInfo
  wait_board zero selected deadline w = none
  wait_board (suc fuel) selected deadline w =
      look (wait_board fuel selected deadline) selected deadline (boards_now w)

  unfoldable pub await_board : ℕ → DeviceInfo → Act W DeviceInfo
  await_board fuel selected w =
      let (now, w1) = bus.clock.now (bus.close w) in
      wait_board fuel selected (now + from_secs 10) w1

  unfoldable pub upload_fx2_firmware : ℕ → DeviceInfo → List FirmwareSegment → Act W DeviceInfo
  unfolding write_firmware await_board
  upload_fx2_firmware fuel selected segments = do
    give (
        if not (selected.native.vendor_id == glasgow_vid)
          || not (selected.native.product_id == glasgow_pid)
        then err (protocol "refusing firmware upload to a non-Glasgow USB identity")
        else ok tt)
    call (λ error. access ("cannot open Glasgow for firmware upload: " +s error))
        (bus.open_device selected.native)
    call (λ error. access ("cannot claim Glasgow for firmware upload: " +s error))
        (bus.claim_interface 0)
    write_firmware segments
    await_board fuel selected

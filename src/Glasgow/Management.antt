-- ===== src/Glasgow/Management.antt =====
-- `Management` of src/uart/glasgow/management.rs: commands over the management endpoints, each
-- tagged with a serial number, and the register, FPGA and port-A commands built on them.
pub mod Serials
pub mod Registers
use glasgow_tool.Prelude.{
  ℕ, zero, suc, ◌+◌, ◌-◌, ◌*◌, ◌/◌, ◌%◌, ◌^◌, Bool, true, false, ◌&&◌, ◌||◌, not, String, Option,
  none, some, List, [], ◌∷◌, ◌++◌, ◌==◌, ltb, leb, length, take, drop, get_or, replicate,
  if◌then◌else◌, ◌+s◌, hex_list,
}
use glasgow_tool.Error.{Error, access, protocol, Result, ok, err, IoError}
use glasgow_tool.Session.{from_millis, from_secs}
use glasgow_tool.Poll.{Clock}

abbrev pub request_fpga_load_cfg : ℕ
request_fpga_load_cfg = 0x20

abbrev pub request_fpga_status : ℕ
request_fpga_status = 0x22

abbrev pub request_fpga_set_reg : ℕ
request_fpga_set_reg = 0x28

abbrev pub request_fpga_get_reg : ℕ
request_fpga_get_reg = 0x29

abbrev pub request_set_vsupply : ℕ
request_set_vsupply = 0x30

abbrev pub request_set_pulls : ℕ
request_set_pulls = 0x3a

abbrev pub result_ack : ℕ
result_ack = 0

abbrev pub result_wait : ℕ
result_wait = 1

abbrev pub fpga_timeout : ℕ
fpga_timeout = from_secs 2

pub record Register : Type 0 where
  pub address : ℕ
  pub width_bits : ℕ
  pub storage_bytes : ℕ
  pub endian : String
  pub access : String

-- nusb's endpoint reader and writer of the management interface, and the clock
pub record Link (W : Type 0) : Type 0 where
  pub write_all : List ℕ → W → Result IoError Unit × W
  pub flush : W → Result IoError Unit × W
  pub read : ℕ → W → Result IoError (List ℕ) × W
  pub clock : Clock W

-- The manager: its next serial number, in the world.
pub record Management (W : Type 0) : Type 0 where
  pub serial : ℕ
  pub world : W

abbrev pub Step : Type 0 → Type 0 → Type 0
Step W A = Management W → Result Error A × Management W

infixl 5 ◌>>=◌ ◌>>◌
abbrev pub ◌>>=◌ : {W A B : Type 0} → Step W A → (A → Step W B) → Step W B
◌>>=◌ m f s = let (r, s1) = m s in elim r [ ok a ↦ f a s1 | err e ↦ (err e, s1) ]

abbrev pub ◌>>◌ : {W B : Type 0} → Step W Unit → Step W B → Step W B
m >> k = m >>= λ _. k

abbrev pub pure : {W A : Type 0} → A → Step W A
pure a s = (ok a, s)

abbrev pub fail : {W A : Type 0} → Error → Step W A
fail e s = (err e, s)

-- `if serial == u8::MAX { 1 } else { serial + 1 }`
unfoldable pub next_serial : ℕ → ℕ
next_serial serial = if serial == 255 then 1 else serial + 1

-- `length == 0 || response[0] != serial`
unfoldable pub check_response : ℕ → List ℕ → Result Error (List ℕ)
check_response serial [] = err (protocol "Glasgow management response serial mismatch")
check_response serial (first ∷ rest) =
    if first == serial
    then ok rest
    else err (protocol "Glasgow management response serial mismatch")

unfoldable pub acknowledged : String → List ℕ → Result Error Unit
acknowledged operation (code ∷ []) =
    if code == result_ack
    then ok tt
    else err (protocol ("Glasgow " +s operation +s " returned " +s hex_list (code ∷ [])))
acknowledged operation response =
    err (protocol ("Glasgow " +s operation +s " returned " +s hex_list response))

unfoldable pub all_zero : List ℕ → Bool
all_zero [] = true
all_zero (b ∷ bs) = (b == 0) && all_zero bs

-- An identifier of zeros means that no bitstream is loaded.
unfoldable pub status_id : List ℕ → Result Error (Option (List ℕ))
unfolding all_zero
status_id response =
    if (length response == 13) && (get_or response 0 1 == result_ack)
    then ok (let id = take 8 (drop 5 response) in if all_zero id then none else some id)
    else err (protocol "invalid Glasgow FPGA status response")

abbrev pub u32_le_bytes : ℕ → List ℕ
u32_le_bytes n = n % 256 ∷ n / 2 ^ 8 % 256 ∷ n / 2 ^ 16 % 256 ∷ n / 2 ^ 24 % 256 ∷ []

-- `value.to_be_bytes()`
abbrev pub u32_be_bytes : ℕ → List ℕ
u32_be_bytes n = n / 2 ^ 24 % 256 ∷ n / 2 ^ 16 % 256 ∷ n / 2 ^ 8 % 256 ∷ n % 256 ∷ []

-- The last `width` bytes.
abbrev pub register_bytes : ℕ → ℕ → List ℕ
register_bytes width value = drop (4 - width) (u32_be_bytes value)

-- `u32::from_le_bytes`
abbrev pub u32_from_le_bytes : List ℕ → ℕ
u32_from_le_bytes bytes =
    get_or bytes 0 0
    + get_or bytes 1 0 * 2 ^ 8
    + get_or bytes 2 0 * 2 ^ 16
    + get_or bytes 3 0 * 2 ^ 24

-- A response of the right length is copied over the front of four zeros; `none` if it is longer.
unfoldable pub register_value : ℕ → List ℕ → Option (Result Error ℕ)
register_value width response =
    if (length response == width + 1) && (get_or response 0 1 == result_ack)
    then (if ltb 4 width
        then none
        else some
            (ok (u32_from_le_bytes (take width (drop 1 response) ++ replicate (4 - width) 0))))
    else some (err (protocol "invalid Glasgow register response"))

abbrev pub voltage_packet : Bool → List ℕ
voltage_packet enable =
    let millivolts = if enable then 3300 else 0 in
    let pair = millivolts % 256 ∷ millivolts / 256 ∷ [] in
    request_set_vsupply ∷ 1 ∷ (pair ++ (pair ++ (pair ++ pair)))

abbrev pub pulls_packet : Bool → List ℕ
pulls_packet enable =
    request_set_pulls ∷ 1 ∷ 0 ∷ (if enable then 1 else 0) ∷ 0 ∷ 0 ∷ 0 ∷ 0 ∷ 0 ∷ 0 ∷ []

module _ {W : Type 0} (link : Link W) where
  -- `write_all(&packet).and_then(flush)`
  unfoldable pub send_packet : List ℕ → Step W Unit
  send_packet packet m =
      let (written, w1) = link.write_all packet m.world in
      elim written [
        | err error ↦ (
          err (access ("Glasgow management write failed: " +s error.message)),
          record m { world = w1 },
        )
        | ok _ ↦
            let (flushed, w2) = link.flush w1 in
            elim flushed [
              | err error ↦ (
                err (access ("Glasgow management write failed: " +s error.message)),
                record m { world = w2 },
              )
              | ok _ ↦ (ok tt, record m { world = w2 })
            ]
      ]

  unfoldable pub receive_response : ℕ → Step W (List ℕ)
  receive_response serial m =
      let (response, w1) = link.read 64 m.world in
      let m1 : Management W = record m { world = w1 } in
      elim response [
        | err error ↦ (err (access ("Glasgow management response failed: " +s error.message)), m1)
        | ok bytes ↦ (check_response serial bytes, m1)
      ]

  -- The packet and its answer, once the serial number is taken.
  unfoldable pub exchange : ℕ → List ℕ → Step W (List ℕ)
  exchange serial payload = do send_packet (serial ∷ payload); receive_response serial

  unfoldable pub command : List ℕ → Step W (List ℕ)
  command payload m =
      if ltb 63 (length payload)
      then (err (protocol "Glasgow management command exceeds 63-byte payload"), m)
      else exchange m.serial payload (record m { serial = next_serial m.serial })

  unfoldable pub expect_ack : List ℕ → String → Step W Unit
  unfolding acknowledged
  expect_ack payload operation = do
    response ← command payload
    λ m. (acknowledged operation response, m)

  unfoldable pub fpga_status : Step W (Option (List ℕ))
  unfolding status_id
  fpga_status = do response ← command (request_fpga_status ∷ []); λ m. (status_id response, m)

  -- One round of the loop of `finish_fpga_load`; `again` is the next.
  unfoldable pub load_round :
      (Management W → Option (Result Error Unit × Management W))
      → ℕ
      → List ℕ
      → Management W
      → Option (Result Error Unit × Management W)
  load_round again deadline (code ∷ []) m =
      if code == result_ack
      then some (ok tt, m)
      else if code == result_wait
      then (let (now, w1) = link.clock.now m.world in
          let m1 : Management W = record m { world = w1 } in
          if ltb now deadline
          then again (record m1 { world = link.clock.sleep (from_millis 10) w1 })
          else some (
            err (protocol ("Glasgow FPGA configuration failed with " +s hex_list (code ∷ []))),
            m1,
          ))
      else some
          (err (protocol ("Glasgow FPGA configuration failed with " +s hex_list (code ∷ []))), m)
  load_round again deadline response m =
      some (err (protocol ("Glasgow FPGA configuration failed with " +s hex_list response)), m)

  unfoldable pub load_loop :
      ℕ → ℕ → List ℕ → Management W → Option (Result Error Unit × Management W)
  unfolding load_round
  load_loop zero deadline payload m = none
  load_loop (suc fuel) deadline payload m =
      let (answer, m1) = command payload m in
      elim answer [
        | err error ↦ some (err error, m1)
        | ok response ↦ load_round (load_loop fuel deadline payload) deadline response m1
      ]

  -- `finish_fpga_load`, with at most `fuel` commands
  unfoldable pub finish_fpga_load :
      ℕ → ℕ → List ℕ → Management W → Option (Result Error Unit × Management W)
  unfolding load_loop
  finish_fpga_load fuel length bitstream_id m =
      if ltb length (2 ^ 32)
      then (let (now, w1) = link.clock.now m.world in
          load_loop fuel (now + fpga_timeout)
            (request_fpga_load_cfg ∷ (u32_le_bytes length ++ bitstream_id))
            (record m { world = w1 }))
      else some (err (protocol "Glasgow bitstream is too large"), m)

  -- `none`: the slice of a register wider than four bytes panics.
  unfoldable pub write_register :
      Register → ℕ → Management W → Option (Result Error Unit × Management W)
  write_register register value m =
      if ltb 4 register.storage_bytes
      then none
      else some (
          expect_ack
            (request_fpga_set_reg ∷ register.address ∷ register_bytes register.storage_bytes value)
            "register write" m)

  unfoldable pub read_register : Register → Management W → Option (Result Error ℕ × Management W)
  read_register register m =
      let (answer, m1) =
        command (request_fpga_get_reg ∷ register.address ∷ register.storage_bytes ∷ []) m in
      elim answer [
        | err error ↦ some (err error, m1)
        | ok response ↦ elim (register_value register.storage_bytes response) [
          | none ↦ none
          | some r ↦ some (r, m1)
        ]
      ]

  unfoldable pub set_fixed_profile : Bool → Step W Unit
  set_fixed_profile enable = do
    expect_ack (voltage_packet enable) "port-A voltage configuration"
    expect_ack (pulls_packet enable) "port-A pull configuration"

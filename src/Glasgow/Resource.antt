-- ===== src/Glasgow/Resource.antt =====
-- The embedded resources of src/uart/glasgow/management.rs and src/uart/glasgow/resources.rs: the
-- manifest, its hexadecimal texts, and the checks before it is used.
pub mod Hex
pub mod Accepted
use Prim.Native.Nat.{bit_and}
use text.Mathlib.Text
use glasgow_tool.Prelude.{
  ℕ, zero, suc, ◌+◌, ◌-◌, ◌*◌, ◌%◌, ◌^◌, Bool, true, false, ◌&&◌, ◌||◌, not, String, Option, none,
  some, List, [], ◌∷◌, length, ◌==◌, ltb, leb, if◌then◌else◌, ◌+s◌,
}
use glasgow_tool.Error.{Error, protocol, Result, ok, err}
use glasgow_tool.Glasgow.Management.{Register}
use glasgow_tool.Glasgow.Device.{api_level}

abbrev pub same_text : String → String → Bool
same_text a b = Text.◌==◌ a b

-- `char::to_digit(16)` of one byte of text
unfoldable pub hex_digit : ℕ → Option ℕ
hex_digit b =
    if leb 48 b && leb b 57
    then some (b - 48)
    else if leb 97 b && leb b 102
    then some (b - 87)
    else if leb 65 b && leb b 70
    then some (b - 55)
    else none

-- `u8::from_str_radix(text, 16)` of two bytes: a plus sign may stand first.
unfoldable pub hex_pair : ℕ → ℕ → Option ℕ
hex_pair a b = if a == 43 then hex_digit b else elim (hex_digit a) [
  | none ↦ none
  | some high ↦ elim (hex_digit b) [ none ↦ none | some low ↦ some (high * 16 + low) ]
]

hex_pairs : List ℕ → Result Error (List ℕ)
unfolding hex_pair
hex_pairs [] = ok []
hex_pairs (a ∷ []) = ok []
hex_pairs (a ∷ b ∷ rest) =
    let decoded = hex_pairs rest in
    elim (hex_pair a b) [
      | none ↦ err (protocol "resource contains invalid hex")
      | some byte ↦ elim decoded [ err error ↦ err error | ok bytes ↦ ok (byte ∷ bytes) ]
    ]

-- `decode_hex` of the bytes of a text
unfoldable pub decode_hex : List ℕ → Result Error (List ℕ)
unfolding hex_pairs
decode_hex value =
    if length value % 2 == 0
    then hex_pairs value
    else err (protocol "resource contains odd-length hex")

pub record PipeEndpoint : Type 0 where
  pub interface : ℕ
  pub alternate_setting : ℕ
  pub endpoint : ℕ
  pub max_packet : ℕ

pub record FirmwareSegment : Type 0 where
  pub address : ℕ
  pub data_hex : List ℕ

-- The voltage is given by the bits of its f64.
pub record Profile : Type 0 where
  pub port : String
  pub voltage_bits : ℕ
  pub rx : String
  pub tx : String
  pub data_bits : ℕ
  pub parity : String
  pub stop_bits : ℕ
  pub flow_control : String
  pub inverted : Bool

-- `id` is the bytes of its text.
pub record Bitstream : Type 0 where
  pub file : String
  pub id : List ℕ
  pub sha256 : String

pub record Registers : Type 0 where
  pub baud_divisor : Register
  pub rx_errors : Register
  pub rx_overflow : Register
  pub tx_state : Register

pub record Pipe : Type 0 where
  pub rx : PipeEndpoint
  pub tx : PipeEndpoint

pub record Firmware : Type 0 where
  pub api_level : ℕ
  pub source_sha256 : String
  pub segments : List FirmwareSegment

pub record ResourceManifest : Type 0 where
  pub schema_version : ℕ
  pub upstream_commit : String
  pub revision : String
  pub profile : Profile
  pub bitstream : Bitstream
  pub registers : Registers
  pub pipe : Pipe
  pub firmware : Firmware

abbrev pub upstream_commit : String
upstream_commit = "b2a15e9c797b90167d96257a557218ddb7984e71"

abbrev pub firmware_source_sha256 : String
firmware_source_sha256 = "f3f368032a9e2d70ab57ef8bea33109ac733165fe1ca170b18b8de03225a8b0e"

-- `3.3_f64.to_bits()`
abbrev pub volts_3_3 : ℕ
volts_3_3 = 4614613358185178726

unfoldable pub profile_valid : Profile → Bool
profile_valid profile =
    same_text profile.port "A"
    && (profile.voltage_bits == volts_3_3)
    && same_text profile.rx "A0"
    && same_text profile.tx "A1"
    && (profile.data_bits == 8)
    && same_text profile.parity "none"
    && (profile.stop_bits == 1)
    && same_text profile.flow_control "none"
    && not profile.inverted

unfoldable pub header_mismatch : String → ResourceManifest → Bool
unfolding profile_valid
header_mismatch revision manifest =
    not (manifest.schema_version == 1)
    || not (same_text manifest.upstream_commit upstream_commit)
    || not (same_text manifest.revision revision)
    || not (manifest.firmware.api_level == api_level)
    || not (same_text manifest.firmware.source_sha256 firmware_source_sha256)
    || not (profile_valid manifest.profile)

unfoldable pub register_mismatch : Register → Bool
register_mismatch register =
    ltb 0x7f register.address
    || (register.storage_bytes == 0)
    || ltb 4 register.storage_bytes
    || (register.width_bits == 0)
    || ltb 32 register.width_bits
    || not (same_text register.endian "little")
    || not (same_text register.access "ro" || same_text register.access "rw")

-- The loop over the four registers.
unfoldable pub registers_mismatch : Registers → Bool
registers_mismatch registers =
    register_mismatch registers.baud_divisor
    || register_mismatch registers.rx_errors
    || register_mismatch registers.rx_overflow
    || register_mismatch registers.tx_state

-- An endpoint's direction is bit 7 of its byte.
unfoldable pub pipe_mismatch : Pipe → Bool
pipe_mismatch pipe =
    (bit_and pipe.rx.endpoint 0x80 == 0)
    || not (bit_and pipe.tx.endpoint 0x80 == 0)
    || not (pipe.rx.max_packet == 512)
    || not (pipe.tx.max_packet == 512)

-- `parse` is serde_json's reader of a manifest, `digest` the lower-case text of a SHA-256.
module _ (parse : List ℕ → Result String ResourceManifest) (digest : List ℕ → String) where
  -- After the header: the digest, the identifier, the registers, the pipes.
  unfoldable pub check_contents :
      String → ResourceManifest → List ℕ → Result Error (ResourceManifest × List ℕ)
  check_contents revision manifest bitstream =
      if not (same_text (digest bitstream) manifest.bitstream.sha256)
        || not (same_text manifest.bitstream.file (revision +s ".bit"))
      then err (protocol "embedded Glasgow bitstream digest mismatch")
      else elim (decode_hex manifest.bitstream.id) [
        | err error ↦ err error
        | ok id ↦
            if not (length id == 8)
            then err (protocol "Glasgow bitstream ID is not eight bytes")
            else if registers_mismatch manifest.registers
            then err (protocol "embedded Glasgow register metadata mismatch")
            else if pipe_mismatch manifest.pipe
            then err (protocol "embedded Glasgow pipe metadata mismatch")
            else ok (manifest, id)
      ]

  unfoldable pub validate_resource_data :
      String → List ℕ → List ℕ → Result Error (ResourceManifest × List ℕ)
  validate_resource_data revision manifest_bytes bitstream = elim (parse manifest_bytes) [
    | err error ↦ err (protocol ("invalid embedded manifest: " +s error))
    | ok manifest ↦
        if header_mismatch revision manifest
        then err
            (protocol "embedded Glasgow resource schema, revision, firmware, or profile mismatch")
        else check_contents revision manifest bitstream
  ]

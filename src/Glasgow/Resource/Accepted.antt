-- ===== src/Glasgow/Resource/Accepted.antt =====
-- The checks of a resource, read back (src/uart/glasgow/management.rs).
use text.Mathlib.TextEquality.{eq_iff}
use glasgow_tool.Prelude.{
  ℕ, ◌≤◌, ◌≡◌, ◌∙◌, ap, sym, inl, inr, true, false, String, List, length, arith,
}
use glasgow_tool.Error.{Result, ok, Result-cases}
use glasgow_tool.Glasgow.Management.{Register}
use glasgow_tool.Glasgow.Resource.{
  Profile, ResourceManifest, Registers, same_text, decode_hex, header_mismatch, register_mismatch,
  registers_mismatch, pipe_mismatch, check_contents, validate_resource_data, profile_valid,
  api_level,
}

pub record IsUsableRegister (register : Register) : Type 0 where
  pub address : register.address ≤ 127
  pub some_bytes : 1 ≤ register.storage_bytes
  pub four_bytes : register.storage_bytes ≤ 4
  pub some_bits : 1 ≤ register.width_bits
  pub word : register.width_bits ≤ 32

register_mismatch_ok : (r : Register) → register_mismatch r ≡ false → IsUsableRegister r
unfolding register_mismatch
register_mismatch_ok r h = ground arith

-- The fixed profile: 3.3 V, here by the bits of that f64, on the pins A0 and A1, eight data bits, no
-- parity, one stop bit, no flow control, not inverted.
pub record IsFixedProfile (profile : Profile) : Type 0 where
  pub port : profile.port ≡ "A"
  pub voltage : profile.voltage_bits ≡ 4614613358185178726
  pub rx : profile.rx ≡ "A0"
  pub tx : profile.tx ≡ "A1"
  pub data_bits : profile.data_bits ≡ 8
  pub parity : profile.parity ≡ "none"
  pub stop_bits : profile.stop_bits ≡ 1
  pub flow_control : profile.flow_control ≡ "none"
  pub inverted : profile.inverted ≡ false

text_is : (a b : String) → same_text a b ≡ true → a ≡ b
text_is a b h = (eq_iff a b).0 h

profile_valid-IsFixedProfile :
    (profile : Profile) → profile_valid profile ≡ true → IsFixedProfile profile
unfolding profile_valid
profile_valid-IsFixedProfile profile h = record {
  port = text_is profile.port "A" (ground arith);
  voltage = ground arith;
  rx = text_is profile.rx "A0" (ground arith);
  tx = text_is profile.tx "A1" (ground arith);
  data_bits = ground arith;
  parity = text_is profile.parity "none" (ground arith);
  stop_bits = ground arith;
  flow_control = text_is profile.flow_control "none" (ground arith);
  inverted = ground arith;
}

-- The resource fits the board's revision and the bitstream, and its parts are within their bounds.
pub record IsUsable (digest : List ℕ → String) (revision : String) (bitstream : List ℕ)
    (manifest : ResourceManifest) (id : List ℕ) : Type 0 where
  pub same_revision : manifest.revision ≡ revision
  pub firmware_level : manifest.firmware.api_level ≡ 9
  pub profile : IsFixedProfile manifest.profile
  pub same_digest : digest bitstream ≡ manifest.bitstream.sha256
  pub eight_bytes : length id ≡ 8
  pub decoded : decode_hex manifest.bitstream.id ≡ ok id
  pub baud_divisor : IsUsableRegister manifest.registers.baud_divisor
  pub rx_errors : IsUsableRegister manifest.registers.rx_errors
  pub rx_overflow : IsUsableRegister manifest.registers.rx_overflow
  pub tx_state : IsUsableRegister manifest.registers.tx_state
  pub packets : (manifest.pipe.rx.max_packet ≡ 512) × (manifest.pipe.tx.max_packet ≡ 512)

header_ok :
    (revision : String) (m : ResourceManifest)
    → header_mismatch revision m ≡ false
    → (same_text m.revision revision ≡ true)
      × (m.firmware.api_level ≡ api_level)
      × (profile_valid m.profile ≡ true)
unfolding header_mismatch
header_ok revision m h = ground arith

registers_ok :
    (registers : Registers)
    → registers_mismatch registers ≡ false
    → (register_mismatch registers.baud_divisor ≡ false)
      × (register_mismatch registers.rx_errors ≡ false)
      × (register_mismatch registers.rx_overflow ≡ false)
      × (register_mismatch registers.tx_state ≡ false)
unfolding registers_mismatch
registers_ok registers h = ground arith

module _ (parse : List ℕ → Result String ResourceManifest) (digest : List ℕ → String) where
  contents_ok :
      (revision : String) (m m' : ResourceManifest) (bitstream id : List ℕ)
      → check_contents parse digest revision m bitstream ≡ ok (m', id)
      → (m' ≡ m)
        × (same_text (digest bitstream) m.bitstream.sha256 ≡ true)
        × (decode_hex m.bitstream.id ≡ ok id)
        × (length id ≡ 8)
        × (registers_mismatch m.registers ≡ false)
        × (pipe_mismatch m.pipe ≡ false)
  unfolding check_contents
  contents_ok revision m m' bitstream id e = elim (Result-cases (decode_hex m.bitstream.id)) [
    | inl (error, d) ↦ absurd (ground (arith, d))
    | inr (bytes, d) ↦ ground (arith, d)
  ]

  packets_ok :
      (m : ResourceManifest)
      → pipe_mismatch m.pipe ≡ false
      → (m.pipe.rx.max_packet ≡ 512) × (m.pipe.tx.max_packet ≡ 512)
  unfolding pipe_mismatch
  packets_ok m h = ground arith

  validate_cases :
      (revision : String) (manifest_bytes bitstream id : List ℕ) (m : ResourceManifest)
      → validate_resource_data parse digest revision manifest_bytes bitstream ≡ ok (m, id)
      → (m0 : ResourceManifest) × (parse manifest_bytes ≡ ok m0)
        × (header_mismatch revision m0 ≡ false)
        × (check_contents parse digest revision m0 bitstream ≡ ok (m, id))
  unfolding validate_resource_data
  validate_cases revision manifest_bytes bitstream id m e =
      elim (Result-cases (parse manifest_bytes)) [
        | inl (error, p) ↦ absurd (ground (arith, p))
        | inr (m0, p) ↦ (m0, p, ground (arith, p), ground (arith, p))
      ]

  -- A resource that is accepted is the one of the board's revision and for the firmware level 9, has
  -- the fixed profile (3.3 V on the pins A0 and A1 of port A, 8N1, not inverted), the digest of the
  -- bitstream, an identifier of eight bytes and pipes of 512 bytes a packet, and each of its four
  -- registers has an address below 128, one to four bytes and at most 32 bits.
  pub validate_resource_data-IsUsable :
      (revision : String) (manifest_bytes bitstream id : List ℕ) (m : ResourceManifest)
      → validate_resource_data parse digest revision manifest_bytes bitstream ≡ ok (m, id)
      → (parse manifest_bytes ≡ ok m) × IsUsable digest revision bitstream m id
  validate_resource_data-IsUsable revision manifest_bytes bitstream id m e =
      let (m0, p, header, contents) = validate_cases revision manifest_bytes bitstream id m e in
      let (same, digests, decoded, eight, registers, pipe) =
        contents_ok revision m0 m bitstream id contents in
      let (a, b, c) = header_ok revision m0 header in
      let (r1, r2, r3, r4) = registers_ok m0.registers registers in
      (
        p ∙ ap (λ k. ok k) (sym same),
        rw same (record {
          same_revision = text_is m0.revision revision a;
          firmware_level = b;
          profile = profile_valid-IsFixedProfile m0.profile c;
          same_digest = text_is (digest bitstream) m0.bitstream.sha256 digests;
          eight_bytes = eight;
          decoded = decoded;
          baud_divisor = register_mismatch_ok m0.registers.baud_divisor r1;
          rx_errors = register_mismatch_ok m0.registers.rx_errors r2;
          rx_overflow = register_mismatch_ok m0.registers.rx_overflow r3;
          tx_state = register_mismatch_ok m0.registers.tx_state r4;
          packets = packets_ok m0 pipe;
        }),
      )

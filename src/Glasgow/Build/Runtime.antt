-- ===== src/Glasgow/Build/Runtime.antt =====
-- The checks of build.rs and those of src/uart/glasgow/management.rs, side by side.
use text.Mathlib.TextEquality.{eq_iff}
use Prim.Native.Nat.{bit_and}
use glasgow_tool.Prelude.{
  ◌||◌, ◌≤◌, ℕ, ◌≡◌, refl, sym, inl, inr, Bool, true, false, String, Option, some, List, [], ◌∷◌,
  length, arith, Option-cases, ◌+s◌, ◌==◌, subst,
}
use glasgow_tool.Error.{Result, ok}
use glasgow_tool.Glasgow.Management.{Register}
use glasgow_tool.Glasgow.Resource.{
  ResourceManifest, same_text, upstream_commit, volts_3_3, firmware_source_sha256, profile_valid,
  header_mismatch, register_mismatch, registers_mismatch, pipe_mismatch, decode_hex, check_contents,
  validate_resource_data,
}
use glasgow_tool.Glasgow.Build.{
  Json, Tree, field, expect, is_str, is_u64, is_at_most, check_header, check_register,
  check_registers, check_pipe, validate_manifest,
}
use glasgow_tool.Glasgow.Provide.{GlasgowResource}
use glasgow_tool.Glasgow.Build.Table.{Tracked}

module _ {Value : Type 0} (json : Json Value) (digest : List ℕ → String) where
  -- The field with this path, if there is one, is read as `a`.
  abbrev pub Reads : {A : Type 0} → (Value → Option A) → Value → List String → A → Type 0
  Reads read value path a = (f : Value) → field json digest path value ≡ some f → read f ≡ some a

  -- The two readers agree on what the build looks at in a register.
  pub record SameRegister (value : Value) (name : String) (register : Register) : Type 0 where
    pub address : Reads json.as_u64 value ("registers" ∷ name ∷ "address" ∷ []) register.address
    pub endian : Reads json.as_str value ("registers" ∷ name ∷ "endian" ∷ []) register.endian

  -- The two readers of a manifest, that of `Value` and the derived one, agree on these fields.
  pub record SameFields (value : Value) (m : ResourceManifest) : Type 0 where
    pub schema_version : Reads json.as_u64 value ("schema_version" ∷ []) m.schema_version
    pub commit : Reads json.as_str value ("upstream_commit" ∷ []) m.upstream_commit
    pub revision : Reads json.as_str value ("revision" ∷ []) m.revision
    pub port : Reads json.as_str value ("profile" ∷ "port" ∷ []) m.profile.port
    pub rx : Reads json.as_str value ("profile" ∷ "rx" ∷ []) m.profile.rx
    pub tx : Reads json.as_str value ("profile" ∷ "tx" ∷ []) m.profile.tx
    pub voltage : Reads json.as_f64 value ("profile" ∷ "voltage" ∷ []) m.profile.voltage_bits
    pub data_bits : Reads json.as_u64 value ("profile" ∷ "data_bits" ∷ []) m.profile.data_bits
    pub parity : Reads json.as_str value ("profile" ∷ "parity" ∷ []) m.profile.parity
    pub stop_bits : Reads json.as_u64 value ("profile" ∷ "stop_bits" ∷ []) m.profile.stop_bits
    pub flow_control :
        Reads json.as_str value ("profile" ∷ "flow_control" ∷ []) m.profile.flow_control
    pub api_level : Reads json.as_u64 value ("firmware" ∷ "api_level" ∷ []) m.firmware.api_level
    pub file : Reads json.as_str value ("bitstream" ∷ "file" ∷ []) m.bitstream.file
    pub sha256 : Reads json.as_str value ("bitstream" ∷ "sha256" ∷ []) m.bitstream.sha256
    pub baud_divisor : SameRegister value "baud_divisor" m.registers.baud_divisor
    pub rx_errors : SameRegister value "rx_errors" m.registers.rx_errors
    pub rx_overflow : SameRegister value "rx_overflow" m.registers.rx_overflow
    pub tx_state : SameRegister value "tx_state" m.registers.tx_state
    pub rx_packet : Reads json.as_u64 value ("pipe" ∷ "rx" ∷ "max_packet" ∷ []) m.pipe.rx.max_packet
    pub tx_packet : Reads json.as_u64 value ("pipe" ∷ "tx" ∷ "max_packet" ∷ []) m.pipe.tx.max_packet

  abbrev pub SameReaders : (List ℕ → Result String ResourceManifest) → Type 0
  SameReaders parse =
      (bytes : List ℕ) (value : Value) (m : ResourceManifest)
      → json.from_slice bytes ≡ some value
      → parse bytes ≡ ok m
      → SameFields value m

  expect_read :
      {A : Type 0} (read : Value → Option A) (test : Option A → Bool) (path : List String)
      (value : Value) (a : A)
      → expect json digest read test path value ≡ true
      → Reads read value path a
      → test (some a) ≡ true
  unfolding expect
  expect_read read test path value a e reads = elim (Option-cases (field json digest path value)) [
    | inl n ↦ absurd (ground (arith, n))
    | inr (f, n) ↦
        let tested : test (read f) ≡ true = ground (arith, n) in
        subst (λ o. test o ≡ true) (reads f n) tested
  ]

  string_read :
      (path : List String) (value : Value) (expected text : String)
      → Reads json.as_str value path text
      → expect json digest json.as_str (is_str expected) path value ≡ true
      → same_text text expected ≡ true
  string_read path value expected text reads e =
      expect_read json.as_str (is_str expected) path value text e reads

  number_read :
      (read : Value → Option ℕ) (path : List String) (value : Value) (expected n : ℕ)
      → Reads read value path n
      → expect json digest read (is_u64 expected) path value ≡ true
      → (n == expected) ≡ true
  number_read read path value expected n reads e =
      expect_read read (is_u64 expected) path value n e reads

  same_text_sym : (a b : String) → same_text a b ≡ true → same_text b a ≡ true
  same_text_sym a b h = (eq_iff b a).1 (sym ((eq_iff a b).0 h))

  -- What the build does not look at in a register, and the board's provider does.
  pub record SoundRegister (register : Register) : Type 0 where
    pub some_bytes : 1 ≤ register.storage_bytes
    pub four_bytes : register.storage_bytes ≤ 4
    pub some_bits : 1 ≤ register.width_bits
    pub word : register.width_bits ≤ 32
    pub access : (same_text register.access "ro" || same_text register.access "rw") ≡ true

  -- The same of a manifest.
  pub record IsSound (m : ResourceManifest) (id : List ℕ) : Type 0 where
    pub firmware_source : same_text m.firmware.source_sha256 firmware_source_sha256 ≡ true
    pub not_inverted : m.profile.inverted ≡ false
    pub decoded : decode_hex m.bitstream.id ≡ ok id
    pub eight_bytes : length id ≡ 8
    pub baud_divisor : SoundRegister m.registers.baud_divisor
    pub rx_errors : SoundRegister m.registers.rx_errors
    pub rx_overflow : SoundRegister m.registers.rx_overflow
    pub tx_state : SoundRegister m.registers.tx_state
    pub rx_is_in : (bit_and m.pipe.rx.endpoint 0x80 == 0) ≡ false
    pub tx_is_out : (bit_and m.pipe.tx.endpoint 0x80 == 0) ≡ true

  register_fine :
      (value : Value) (name : String) (register : Register)
      → check_register json digest value name ≡ true
      → SameRegister value name register
      → SoundRegister register
      → register_mismatch register ≡ false
  unfolding check_register register_mismatch
  register_fine value name register e same sound =
      let address =
        expect_read json.as_u64 (is_at_most 0x7f) ("registers" ∷ name ∷ "address" ∷ []) value
          register.address (ground arith) same.address in
      let endian =
        string_read ("registers" ∷ name ∷ "endian" ∷ []) value "little" register.endian same.endian
          (ground arith) in
      ground (
        arith, address, endian, sound.some_bytes, sound.four_bytes, sound.some_bits, sound.word,
        sound.access,
      )

  registers_fine :
      (value : Value) (m : ResourceManifest) (id : List ℕ)
      → check_registers json digest value ≡ true
      → SameFields value m
      → IsSound m id
      → registers_mismatch m.registers ≡ false
  unfolding check_registers registers_mismatch
  registers_fine value m id e same sound =
      let r = m.registers in
      let one =
        register_fine value "baud_divisor" r.baud_divisor (ground arith) same.baud_divisor
          sound.baud_divisor in
      let two =
        register_fine value "rx_errors" r.rx_errors (ground arith) same.rx_errors sound.rx_errors in
      let three =
        register_fine value "rx_overflow" r.rx_overflow (ground arith) same.rx_overflow
          sound.rx_overflow in
      let four =
        register_fine value "tx_state" r.tx_state (ground arith) same.tx_state sound.tx_state in
      ground (arith, one, two, three, four)

  pipe_fine :
      (value : Value) (m : ResourceManifest) (id : List ℕ)
      → check_pipe json digest value ≡ true
      → SameFields value m
      → IsSound m id
      → pipe_mismatch m.pipe ≡ false
  unfolding check_pipe pipe_mismatch
  pipe_fine value m id e same sound =
      let rx =
        number_read json.as_u64 ("pipe" ∷ "rx" ∷ "max_packet" ∷ []) value 512 m.pipe.rx.max_packet
          same.rx_packet (ground arith) in
      let tx =
        number_read json.as_u64 ("pipe" ∷ "tx" ∷ "max_packet" ∷ []) value 512 m.pipe.tx.max_packet
          same.tx_packet (ground arith) in
      rw (sound.rx_is_in, sound.tx_is_out, rx, tx) refl

  same_header :
      (revision : String) (bitstream : List ℕ) (value : Value) (m : ResourceManifest)
      → check_header json digest revision bitstream value ≡ true
      → SameFields value m
      → ((m.schema_version == 1) ≡ true)
        × (same_text m.upstream_commit upstream_commit ≡ true)
        × (same_text m.revision revision ≡ true)
        × ((m.firmware.api_level == 9) ≡ true)
        × (same_text m.bitstream.file (revision +s ".bit") ≡ true)
        × (same_text m.bitstream.sha256 (digest bitstream) ≡ true)
  unfolding check_header
  same_header revision bitstream value m e same = (
    number_read json.as_u64 ("schema_version" ∷ []) value 1 m.schema_version same.schema_version
        (ground arith),
    string_read ("upstream_commit" ∷ []) value upstream_commit m.upstream_commit same.commit
        (ground arith),
    string_read ("revision" ∷ []) value revision m.revision same.revision (ground arith),
    number_read json.as_u64 ("firmware" ∷ "api_level" ∷ []) value 9 m.firmware.api_level
        same.api_level (ground arith),
    string_read ("bitstream" ∷ "file" ∷ []) value (revision +s ".bit") m.bitstream.file same.file
        (ground arith),
    string_read ("bitstream" ∷ "sha256" ∷ []) value (digest bitstream) m.bitstream.sha256
        same.sha256 (ground arith),
  )

  same_profile :
      (revision : String) (bitstream : List ℕ) (value : Value) (m : ResourceManifest)
      → check_header json digest revision bitstream value ≡ true
      → SameFields value m
      → m.profile.inverted ≡ false
      → profile_valid m.profile ≡ true
  unfolding check_header profile_valid
  same_profile revision bitstream value m e same plain =
      let port =
        string_read ("profile" ∷ "port" ∷ []) value "A" m.profile.port same.port (ground arith) in
      let rx = string_read ("profile" ∷ "rx" ∷ []) value "A0" m.profile.rx same.rx (ground arith) in
      let tx = string_read ("profile" ∷ "tx" ∷ []) value "A1" m.profile.tx same.tx (ground arith) in
      let voltage =
        number_read json.as_f64 ("profile" ∷ "voltage" ∷ []) value volts_3_3 m.profile.voltage_bits
          same.voltage (ground arith) in
      let data_bits =
        number_read json.as_u64 ("profile" ∷ "data_bits" ∷ []) value 8 m.profile.data_bits
          same.data_bits (ground arith) in
      let parity =
        string_read ("profile" ∷ "parity" ∷ []) value "none" m.profile.parity same.parity
          (ground arith) in
      let stop_bits =
        number_read json.as_u64 ("profile" ∷ "stop_bits" ∷ []) value 1 m.profile.stop_bits
          same.stop_bits (ground arith) in
      let flow =
        string_read ("profile" ∷ "flow_control" ∷ []) value "none" m.profile.flow_control
          same.flow_control (ground arith) in
      rw (port, voltage, rx, tx, data_bits, parity, stop_bits, flow, plain) refl

  validated :
      (revision : String) (manifest bitstream : List ℕ)
      → validate_manifest json digest revision manifest bitstream ≡ true
      → (value : Value) × (json.from_slice manifest ≡ some value)
        × (check_header json digest revision bitstream value ≡ true)
        × (check_registers json digest value ≡ true)
        × (check_pipe json digest value ≡ true)
  unfolding validate_manifest
  validated revision manifest bitstream e = elim (Option-cases (json.from_slice manifest)) [
    | inl n ↦ absurd (ground (arith, n))
    | inr (value, n) ↦ (value, n, ground (arith, n), ground (arith, n), ground (arith, n))
  ]

  header_accepted :
      (revision : String) (bitstream : List ℕ) (value : Value) (m : ResourceManifest) (id : List ℕ)
      → check_header json digest revision bitstream value ≡ true
      → SameFields value m
      → IsSound m id
      → header_mismatch revision m ≡ false
  unfolding header_mismatch
  header_accepted revision bitstream value m id e same sound =
      let (schema, commit, name, level, _, _) = same_header revision bitstream value m e same in
      let profile = same_profile revision bitstream value m e same sound.not_inverted in
      rw (schema, commit, name, level, sound.firmware_source, profile) refl

  contents_accepted :
      (parse : List ℕ → Result String ResourceManifest) (revision : String) (bitstream : List ℕ)
      (value : Value) (m : ResourceManifest) (id : List ℕ)
      → check_header json digest revision bitstream value ≡ true
      → SameFields value m
      → IsSound m id
      → registers_mismatch m.registers ≡ false
      → pipe_mismatch m.pipe ≡ false
      → check_contents parse digest revision m bitstream ≡ ok (m, id)
  unfolding check_contents
  contents_accepted parse revision bitstream value m id e same sound registers pipe =
      let (_, _, _, _, file, sha256) = same_header revision bitstream value m e same in
      let digests = same_text_sym m.bitstream.sha256 (digest bitstream) sha256 in
      ground (arith, file, digests, sound.decoded, sound.eight_bytes, registers, pipe)

  -- A resource that the build embeds is accepted when the board's provider checks it, given that the
  -- two readers of its manifest agree and that the fields the build does not look at are right: the
  -- schema, the commit, the revision, the firmware's level, the profile, the digest of the bitstream,
  -- the registers' addresses and byte order and the packets of the pipes never fail again.
  pub embedded-Accepted :
      (tree : Tree) (parse : List ℕ → Result String ResourceManifest) (revision : String)
      (r : GlasgowResource) (m : ResourceManifest) (id : List ℕ)
      → SameReaders parse
      → Tracked json digest tree revision r
      → parse r.manifest ≡ ok m
      → IsSound m id
      → validate_resource_data parse digest revision r.manifest r.bitstream ≡ ok (m, id)
  unfolding validate_resource_data
  embedded-Accepted tree parse revision r m id readers tracked parsed sound =
      let (value, n, e, e1, e2) = validated revision r.manifest r.bitstream tracked.valid in
      let same = readers r.manifest value m n parsed in
      let header = header_accepted revision r.bitstream value m id e same sound in
      let contents =
        contents_accepted parse revision r.bitstream value m id e same sound
          (registers_fine value m id e1 same sound) (pipe_fine value m id e2 same sound) in
      ground (arith, parsed, header, contents)

-- ===== src/Tests/Resources.antt =====
-- A resource that is accepted (src/uart/glasgow/management.rs).
use glasgow_tool.Prelude.{ℕ, ◌≡◌, refl, false, String, List, [], ◌∷◌}
use glasgow_tool.Error.{Result, ok}
use glasgow_tool.Glasgow.Management.{Register}
use glasgow_tool.Glasgow.Resource.{
  ResourceManifest, volts_3_3, upstream_commit, firmware_source_sha256, decode_hex,
  validate_resource_data, check_contents, header_mismatch, profile_valid, registers_mismatch,
  register_mismatch, pipe_mismatch, hex_pair, hex_digit,
}
use glasgow_tool.Glasgow.Resource.Hex.{hex_text}
use glasgow_tool.Glasgow.Resource.Accepted.{IsUsable, validate_resource_data-IsUsable}

abbrev word_register : Register
word_register = record {
  address = 4;
  width_bits = 32;
  storage_bytes = 4;
  endian = "little";
  access = "rw";
}

abbrev pub good_id : List ℕ
good_id = 1 ∷ 2 ∷ 3 ∷ 4 ∷ 5 ∷ 6 ∷ 7 ∷ 8 ∷ []

abbrev pub good_manifest : ResourceManifest
good_manifest = record {
  schema_version = 1;
  upstream_commit = upstream_commit;
  revision = "C3";
  profile = record {
    port = "A";
    voltage_bits = volts_3_3;
    rx = "A0";
    tx = "A1";
    data_bits = 8;
    parity = "none";
    stop_bits = 1;
    flow_control = "none";
    inverted = false;
  };
  bitstream = record { file = "C3.bit"; id = hex_text good_id; sha256 = "digest" };
  registers = record {
    baud_divisor = word_register;
    rx_errors = word_register;
    rx_overflow = word_register;
    tx_state = word_register;
  };
  pipe = record {
    rx = record { interface = 2; alternate_setting = 1; endpoint = 0x86; max_packet = 512 };
    tx = record { interface = 3; alternate_setting = 1; endpoint = 2; max_packet = 512 };
  };
  firmware = record { api_level = 9; source_sha256 = firmware_source_sha256; segments = [] };
}

abbrev pub read_manifest : List ℕ → Result String ResourceManifest
read_manifest bytes = ok good_manifest

abbrev pub digest_text : List ℕ → String
digest_text bytes = "digest"

accepts : validate_resource_data read_manifest digest_text "C3" [] [] ≡ ok (good_manifest, good_id)
unfolding validate_resource_data check_contents header_mismatch profile_valid registers_mismatch
    register_mismatch pipe_mismatch decode_hex hex_pair hex_digit
accepts = refl

validate_resource_data-IsUsable_example :
    (◌≡◌ {A = Result String ResourceManifest} (ok good_manifest) (ok good_manifest))
    × IsUsable digest_text "C3" [] good_manifest good_id
validate_resource_data-IsUsable_example =
    validate_resource_data-IsUsable read_manifest digest_text "C3" [] [] good_id good_manifest
      accepts

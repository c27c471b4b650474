-- ===== src/Tests/Building.antt =====
-- A build (build.rs) over four manifests that are numbered by their only byte, and a resource that it
-- embeds.
use mathlib.Core.Option.{some-injective}
use text.Mathlib.Text
use glasgow_tool.Prelude.{
  ℕ, arith, ◌==◌, ◌≡◌, refl, true, subst, ap, String, Option, none, some, List, [], ◌∷◌,
  if◌then◌else◌, ◌+s◌, ◌++◌,
}
use glasgow_tool.Error.{Result, ok, err}
use glasgow_tool.Glasgow.Resource.{
  ResourceManifest, validate_resource_data, decode_hex, hex_pair, hex_digit, registers_mismatch,
  register_mismatch, pipe_mismatch, same_text,
}
use glasgow_tool.Glasgow.Provide.{GlasgowResource}
use glasgow_tool.Glasgow.Build.{
  Json, Tree, Built, field, expect, check_header, check_register, check_registers, check_pipe,
  validate_manifest, manifest_name, manifest_names, is_among, all_among, same_names, write_out,
  add_row, copy_files, embed, embed_all, row_text, finish, write_table, build,
}
use glasgow_tool.Glasgow.Build.Table.{Tracked, IsComplete, build-IsComplete}
use glasgow_tool.Glasgow.Build.Runtime.{
  SameReaders, SameFields, SoundRegister, IsSound, embedded-Accepted,
}
use glasgow_tool.Tests.Resources.{good_id, good_manifest, digest_text}

abbrev numbered : List ℕ → String
numbered [] = "C0"
numbered (n ∷ _) = if n == 1 then "C1" else if n == 2 then "C2" else if n == 3 then "C3" else "C0"

abbrev manifest_of : List ℕ → ResourceManifest
manifest_of bytes = record good_manifest {
  revision = numbered bytes;
  bitstream = record good_manifest.bitstream { file = numbered bytes +s ".bit" };
}

-- A value of the JSON: a manifest, and the keys followed so far.
abbrev text_at : ResourceManifest → String → Option String
text_at m path =
    if same_text path "/upstream_commit"
    then some m.upstream_commit
    else if same_text path "/revision"
    then some m.revision
    else if same_text path "/profile/port"
    then some m.profile.port
    else if same_text path "/profile/rx"
    then some m.profile.rx
    else if same_text path "/profile/tx"
    then some m.profile.tx
    else if same_text path "/profile/parity"
    then some m.profile.parity
    else if same_text path "/profile/flow_control"
    then some m.profile.flow_control
    else if same_text path "/bitstream/file"
    then some m.bitstream.file
    else if same_text path "/bitstream/sha256"
    then some m.bitstream.sha256
    else some "little"

abbrev number_at : ResourceManifest → String → Option ℕ
number_at m path =
    if same_text path "/schema_version"
    then some m.schema_version
    else if same_text path "/profile/data_bits"
    then some m.profile.data_bits
    else if same_text path "/profile/stop_bits"
    then some m.profile.stop_bits
    else if same_text path "/firmware/api_level"
    then some m.firmware.api_level
    else if same_text path "/pipe/rx/max_packet"
    then some m.pipe.rx.max_packet
    else if same_text path "/pipe/tx/max_packet"
    then some m.pipe.tx.max_packet
    else some 4

abbrev reader : Json (ResourceManifest × String)
reader = record {
  from_slice = λ bytes. some (manifest_of bytes, "");
  get = λ key v. some (v.0, v.1 +s "/" +s key);
  as_str = λ v. text_at v.0 v.1;
  as_u64 = λ v. number_at v.0 v.1;
  as_f64 = λ v. some v.0.profile.voltage_bits;
}

abbrev file_number : String → ℕ
file_number name =
    if Text.starts_with name "C1"
    then 1
    else if Text.starts_with name "C2"
    then 2
    else if Text.starts_with name "C3"
    then 3
    else 0

abbrev tree : Tree
tree = record {
  resources = some "/src/resources/glasgow-uart";
  is_dir = true;
  entries = some (
      some (record { extension = some "json"; file_stem = some "C2" })
      ∷ some (record { extension = some "bit"; file_stem = some "C2" })
      ∷ none
      ∷ some (record { extension = some "json"; file_stem = some "C0" })
      ∷ some (record { extension = some "json"; file_stem = some "build-cache" })
      ∷ some (record { extension = some "json"; file_stem = some "C1" })
      ∷ some (record { extension = some "json"; file_stem = some "C3" })
      ∷ []);
  read = λ name. some (file_number name ∷ []);
  out_dir = some "/out";
  can_write = λ name. true;
}

abbrev resource_of : String → ℕ → GlasgowResource
resource_of revision n = record { revision = revision; bitstream = n ∷ []; manifest = n ∷ [] }

manifest_valid : validate_manifest reader digest_text "C2" (2 ∷ []) (2 ∷ []) ≡ true
unfolding validate_manifest check_header check_registers check_register check_pipe expect field
manifest_valid = refl

abbrev files_of : String → ℕ → List (String × List ℕ)
files_of revision n = (revision +s ".bit", n ∷ []) ∷ (revision +s ".json", n ∷ []) ∷ []

abbrev lines_of : String → List String
lines_of revision =
    ("cargo:rerun-if-changed=/src/resources/glasgow-uart/" +s revision +s ".json")
    ∷ ("cargo:rerun-if-changed=/src/resources/glasgow-uart/" +s revision +s ".bit")
    ∷ []

abbrev line : String → String
line revision =
    "    GlasgowResource { revision: \"" +s revision +s "\", bitstream: include_bytes!(r\"/out/"
    +s revision +s ".bit\"), manifest: include_bytes!(r\"/out/" +s revision +s ".json\") },\n"

abbrev table_text : String
table_text =
    "pub static GLASGOW_RESOURCES: &[GlasgowResource] = &[\n"
    +s line "C0"
    +s line "C1"
    +s line "C2"
    +s line "C3"
    +s "];\n"

abbrev built : Built
built = record {
  files = files_of "C3" 3 ++ files_of "C2" 2 ++ files_of "C1" 1 ++ files_of "C0" 0;
  generated = table_text;
  directives =
      lines_of "C0"
      ++ lines_of "C1"
      ++ lines_of "C2"
      ++ lines_of "C3"
      ++ "cargo:rerun-if-changed=build.rs" ∷ [];
  source = some table_text;
}

builds : build reader digest_text tree ≡ some built
unfolding build write_table embed_all embed copy_files write_out add_row row_text finish same_names
    all_among is_among manifest_names manifest_name validate_manifest check_header check_registers
    check_register check_pipe expect field
builds = refl

build-IsComplete_example : IsComplete reader digest_text tree built
build-IsComplete_example = build-IsComplete reader digest_text tree built builds

fields_same :
    (bytes : List ℕ) → SameFields reader digest_text (manifest_of bytes, "") (manifest_of bytes)
unfolding field
fields_same bytes = record {
  schema_version = λ f e. cc;
  commit = λ f e. cc;
  revision = λ f e. cc;
  port = λ f e. cc;
  rx = λ f e. cc;
  tx = λ f e. cc;
  voltage = λ f e. cc;
  data_bits = λ f e. cc;
  parity = λ f e. cc;
  stop_bits = λ f e. cc;
  flow_control = λ f e. cc;
  api_level = λ f e. cc;
  file = λ f e. cc;
  sha256 = λ f e. cc;
  baud_divisor = record { address = λ f e. cc; endian = λ f e. cc };
  rx_errors = record { address = λ f e. cc; endian = λ f e. cc };
  rx_overflow = record { address = λ f e. cc; endian = λ f e. cc };
  tx_state = record { address = λ f e. cc; endian = λ f e. cc };
  rx_packet = λ f e. cc;
  tx_packet = λ f e. cc;
}

ok-injective :
    {a b : ResourceManifest} → (◌≡◌ {A = Result String ResourceManifest} (ok a) (ok b)) → a ≡ b
ok-injective {a = a} e = ap (λ r. elim r [ ok m ↦ m | err _ ↦ a ]) e

same_readers : SameReaders reader digest_text (λ bytes. ok (manifest_of bytes))
same_readers bytes value m e p =
    let same_value : (manifest_of bytes, "") ≡ value = some-injective _ _ e in
    let same_manifest : manifest_of bytes ≡ m = ok-injective p in
    subst (λ v. SameFields reader digest_text v m) same_value
      (subst (λ k. SameFields reader digest_text (manifest_of bytes, "") k) same_manifest
        (fields_same bytes))

tracked : Tracked reader digest_text tree "C2" (resource_of "C2" 2)
tracked = record { same_revision = refl; manifest = refl; bitstream = refl; valid = manifest_valid }

sound_register : SoundRegister reader digest_text good_manifest.registers.baud_divisor
sound_register = record {
  some_bytes = omega arith;
  four_bytes = omega arith;
  some_bits = omega arith;
  word = omega arith;
  access = refl;
}

sound : IsSound reader digest_text (manifest_of (2 ∷ [])) good_id
unfolding decode_hex hex_pair hex_digit registers_mismatch register_mismatch pipe_mismatch
sound = record {
  firmware_source = refl;
  not_inverted = refl;
  decoded = refl;
  eight_bytes = refl;
  baud_divisor = sound_register;
  rx_errors = sound_register;
  rx_overflow = sound_register;
  tx_state = sound_register;
  rx_is_in = refl;
  tx_is_out = refl;
}

embedded-Accepted_example :
    validate_resource_data (λ bytes. ok (manifest_of bytes)) digest_text "C2" (2 ∷ []) (2 ∷ [])
    ≡ ok (manifest_of (2 ∷ []), good_id)
embedded-Accepted_example =
    embedded-Accepted reader digest_text tree (λ bytes. ok (manifest_of bytes)) "C2"
      (resource_of "C2" 2) (manifest_of (2 ∷ [])) good_id same_readers tracked refl sound

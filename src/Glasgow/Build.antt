-- ===== src/Glasgow/Build.antt =====
-- The build script build.rs: it checks the tracked manifests and bitstreams, copies them, and writes
-- the table of resources that src/uart/glasgow/resources.rs includes. A panic stops the build; its
-- text is left out.
pub mod Table
pub mod Runtime
use text.Mathlib.Text
use glasgow_tool.Prelude.{
  ℕ, Bool, true, false, ◌&&◌, not, String, Option, none, some, List, [], ◌∷◌, ◌++◌, ◌==◌, leb,
  if◌then◌else◌, ◌+s◌,
}
use glasgow_tool.Glasgow.Resource.{same_text, upstream_commit, volts_3_3}

-- serde_json's `Value`; an f64 is given by its bits.
pub record Json (Value : Type 0) : Type 0 where
  pub from_slice : List ℕ → Option Value
  pub get : String → Value → Option Value
  pub as_str : Value → Option String
  pub as_u64 : Value → Option ℕ
  pub as_f64 : Value → Option ℕ

-- An entry of a directory: what `Path` says of its name, where it is a UTF-8 text.
pub record DirEntry : Type 0 where
  pub extension : Option String
  pub file_stem : Option String

-- The environment of the build: the path of `resources/glasgow-uart` in the package, what can be read
-- there, by file name, and whether a file can be written to `OUT_DIR`.
pub record Tree : Type 0 where
  pub resources : Option String
  pub is_dir : Bool
  pub entries : Option (List (Option DirEntry))
  pub read : String → Option (List ℕ)
  pub out_dir : Option String
  pub can_write : String → Bool

-- The files written, the last one first, the text `generated`, the lines printed for cargo, and
-- what was written to `glasgow_resources.rs`.
pub record Built : Type 0 where
  pub files : List (String × List ℕ)
  pub generated : String
  pub directives : List String
  pub source : Option String

abbrev pub revisions : List String
revisions = "C0" ∷ "C1" ∷ "C2" ∷ "C3" ∷ []

abbrev pub is_str : String → Option String → Bool
is_str expected none = false
is_str expected (some text) = same_text text expected

abbrev pub is_u64 : ℕ → Option ℕ → Bool
is_u64 expected none = false
is_u64 expected (some n) = n == expected

abbrev pub is_at_most : ℕ → Option ℕ → Bool
is_at_most bound none = false
is_at_most bound (some n) = leb n bound

-- The stem of an entry with the extension `json`.
unfoldable pub manifest_name : DirEntry → Option String
manifest_name entry = if is_str "json" entry.extension then entry.file_stem else none

unfoldable pub manifest_names : List (Option DirEntry) → List String
unfolding manifest_name
manifest_names [] = []
manifest_names (none ∷ entries) = manifest_names entries
manifest_names (some entry ∷ entries) =
    let rest = manifest_names entries in
    elim (manifest_name entry) [
      | none ↦ rest
      | some name ↦ if same_text name "build-cache" then rest else name ∷ rest
    ]

unfoldable pub is_among : String → List String → Bool
is_among name [] = false
is_among name (other ∷ others) =
    let rest = is_among name others in if same_text other name then true else rest

unfoldable pub all_among : List String → List String → Bool
unfolding is_among
all_among [] others = true
all_among (name ∷ names) others = let rest = all_among names others in is_among name others && rest

-- The equality of two sets of names.
unfoldable pub same_names : List String → List String → Bool
unfolding all_among
same_names names others = all_among names others && all_among others names

-- `fs::write(out_dir.join(name), bytes).unwrap()`
unfoldable pub write_out : Tree → String → List ℕ → Built → Option Built
write_out tree name bytes built =
    if tree.can_write name
    then some (record built { files = (name, bytes) ∷ built.files })
    else none

-- A line of the table, as Rust source.
unfoldable pub row_text : String → String → String
row_text out_dir revision =
    "    GlasgowResource { revision: \"" +s revision +s "\", bitstream: include_bytes!(r\""
    +s out_dir +s "/" +s revision +s ".bit\"), manifest: include_bytes!(r\"" +s out_dir +s "/"
    +s revision +s ".json\") },\n"

-- The lines of one revision, once its two files are copied.
unfoldable pub add_row : String → String → String → Built → Built
unfolding row_text
add_row resources out_dir revision built = record built {
  generated = built.generated +s row_text out_dir revision;
  directives =
      built.directives
      ++ ("cargo:rerun-if-changed=" +s resources +s "/" +s revision +s ".json")
        ∷ ("cargo:rerun-if-changed=" +s resources +s "/" +s revision +s ".bit")
        ∷ [];
}

unfoldable pub copy_files : Tree → String → String → String → List ℕ → List ℕ → Built → Option Built
unfolding write_out add_row
copy_files tree resources out_dir revision manifest bitstream built =
    elim (write_out tree (revision +s ".json") manifest built) [
      | none ↦ none
      | some b ↦ elim (write_out tree (revision +s ".bit") bitstream b) [
        | none ↦ none
        | some c ↦ some (add_row resources out_dir revision c)
      ]
    ]

module _ {Value : Type 0} (json : Json Value) (digest : List ℕ → String) where
  -- `field`, or a panic on a missing key
  unfoldable pub field : List String → Value → Option Value
  field [] value = some value
  field (key ∷ path) value = elim (json.get key value) [
    | none ↦ none
    | some inner ↦ field path inner
  ]

  unfoldable pub expect :
      {A : Type 0} → (Value → Option A) → (Option A → Bool) → List String → Value → Bool
  unfolding field
  expect read test path value = elim (field path value) [ none ↦ false | some v ↦ test (read v) ]

  abbrev pub expect_string : Value → List String → String → Bool
  expect_string value path expected = expect json.as_str (is_str expected) path value

  abbrev pub expect_number : Value → List String → ℕ → Bool
  expect_number value path expected = expect json.as_u64 (is_u64 expected) path value

  -- The assertions of the header, the profile, the firmware and the bitstream.
  unfoldable pub check_header : String → List ℕ → Value → Bool
  check_header revision bitstream value =
      expect_number value ("schema_version" ∷ []) 1
      && expect_string value ("upstream_commit" ∷ []) upstream_commit
      && expect_string value ("revision" ∷ []) revision
      && expect_string value ("profile" ∷ "port" ∷ []) "A"
      && expect_string value ("profile" ∷ "rx" ∷ []) "A0"
      && expect_string value ("profile" ∷ "tx" ∷ []) "A1"
      && expect json.as_f64 (is_u64 volts_3_3) ("profile" ∷ "voltage" ∷ []) value
      && expect_number value ("profile" ∷ "data_bits" ∷ []) 8
      && expect_string value ("profile" ∷ "parity" ∷ []) "none"
      && expect_number value ("profile" ∷ "stop_bits" ∷ []) 1
      && expect_string value ("profile" ∷ "flow_control" ∷ []) "none"
      && expect_number value ("firmware" ∷ "api_level" ∷ []) 9
      && expect_string value ("bitstream" ∷ "file" ∷ []) (revision +s ".bit")
      && expect_string value ("bitstream" ∷ "sha256" ∷ []) (digest bitstream)

  unfoldable pub check_register : Value → String → Bool
  check_register value register =
      expect json.as_u64 (is_at_most 0x7f) ("registers" ∷ register ∷ "address" ∷ []) value
      && expect_string value ("registers" ∷ register ∷ "endian" ∷ []) "little"

  -- The loop over the registers.
  unfoldable pub check_registers : Value → Bool
  unfolding check_register
  check_registers value =
      check_register value "baud_divisor"
      && check_register value "rx_errors"
      && check_register value "rx_overflow"
      && check_register value "tx_state"

  -- The loop over the directions.
  unfoldable pub check_pipe : Value → Bool
  check_pipe value =
      expect_number value ("pipe" ∷ "rx" ∷ "max_packet" ∷ []) 512
      && expect_number value ("pipe" ∷ "tx" ∷ "max_packet" ∷ []) 512

  -- True unless an assertion panics.
  unfoldable pub validate_manifest : String → List ℕ → List ℕ → Bool
  unfolding check_header check_registers check_pipe
  validate_manifest revision manifest bitstream = elim (json.from_slice manifest) [
    | none ↦ false
    | some value ↦
        check_header revision bitstream value && check_registers value && check_pipe value
  ]

  -- The body of the loop over the revisions.
  unfoldable pub embed : Tree → String → String → String → Built → Option Built
  unfolding validate_manifest copy_files
  embed tree resources out_dir revision built = elim (tree.read (revision +s ".json")) [
    | none ↦ none
    | some manifest ↦ elim (tree.read (revision +s ".bit")) [
      | none ↦ none
      | some bitstream ↦
          if validate_manifest revision manifest bitstream
          then copy_files tree resources out_dir revision manifest bitstream built
          else none
    ]
  ]

  unfoldable pub embed_all : Tree → String → String → List String → Built → Option Built
  unfolding embed
  embed_all tree resources out_dir [] built = some built
  embed_all tree resources out_dir (revision ∷ rest) built =
      elim (embed tree resources out_dir revision built) [
        | none ↦ none
        | some next ↦ embed_all tree resources out_dir rest next
      ]

abbrev pub started : Built
started = record {
  files = [];
  generated = "pub static GLASGOW_RESOURCES: &[GlasgowResource] = &[\n";
  directives = [];
  source = none;
}

-- After the loop: the table is written.
unfoldable pub finish : Tree → Built → Option Built
finish tree built =
    let table = built.generated +s "];\n" in
    if tree.can_write "glasgow_resources.rs"
    then some (record built {
      generated = table;
      source = some table;
      directives = built.directives ++ "cargo:rerun-if-changed=build.rs" ∷ [];
    })
    else none

module _ {Value : Type 0} (json : Json Value) (digest : List ℕ → String) where
  unfoldable pub write_table : Tree → String → Option Built
  unfolding finish
  write_table tree resources = elim tree.out_dir [
    | none ↦ none
    | some out_dir ↦ elim (embed_all json digest tree resources out_dir revisions started) [
      | none ↦ none
      | some built ↦ finish tree built
    ]
  ]

  -- `main`
  unfoldable pub build : Tree → Option Built
  unfolding write_table
  build tree = elim tree.resources [
    | none ↦ none
    | some resources ↦ if not tree.is_dir then none else elim tree.entries [
      | none ↦ none
      | some entries ↦
          if same_names (manifest_names entries) revisions then write_table tree resources else none
    ]
  ]

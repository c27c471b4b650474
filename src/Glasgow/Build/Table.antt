-- ===== src/Glasgow/Build/Table.antt =====
-- What the build embeds (build.rs, src/uart/glasgow/resources.rs).
use glasgow_tool.Prelude.{
  ℕ, ◌≡◌, refl, ap, ◌∙◌, inl, inr, true, String, Option, none, if◌then◌else◌, some, List, [], ◌∷◌,
  arith, Option-cases, Bool-cases, All, ◌+s◌,
}
use glasgow_tool.Glasgow.Resource.{same_text}
use glasgow_tool.Glasgow.Provide.{GlasgowResource}
use glasgow_tool.Glasgow.Build.{
  Json, Tree, Built, revisions, validate_manifest, write_out, add_row, copy_files, embed, embed_all,
  started, row_text, finish, write_table, build,
}

module _ {Value : Type 0} (json : Json Value) (digest : List ℕ → String) (tree : Tree) where
  -- The two tracked files of a revision, which pass the assertions.
  pub record Tracked (revision : String) (resource : GlasgowResource) : Type 0 where
    pub same_revision : resource.revision ≡ revision
    pub manifest : tree.read (revision +s ".json") ≡ some resource.manifest
    pub bitstream : tree.read (revision +s ".bit") ≡ some resource.bitstream
    pub valid : validate_manifest json digest revision resource.manifest resource.bitstream ≡ true

  embedded : String → String → String → GlasgowResource → Built → Built
  unfolding add_row
  embedded resources out_dir revision r built = add_row resources out_dir revision (record built {
    files = (revision +s ".bit", r.bitstream) ∷ (revision +s ".json", r.manifest) ∷ built.files;
  })

  copy_files-some :
      (resources out_dir revision : String) (manifest bitstream : List ℕ) (before after : Built)
      → copy_files tree resources out_dir revision manifest bitstream before ≡ some after
      → after
        ≡ embedded resources out_dir revision
            (record { revision = revision; bitstream = bitstream; manifest = manifest })
            before
  unfolding copy_files write_out add_row embedded
  copy_files-some resources out_dir revision manifest bitstream before after e = ground arith

  embed-some :
      (resources out_dir revision : String) (before after : Built)
      → embed json digest tree resources out_dir revision before ≡ some after
      → (r : GlasgowResource) × Tracked revision r
        × (after ≡ embedded resources out_dir revision r before)
  unfolding embed
  embed-some resources out_dir revision before after e =
      elim (Option-cases (tree.read (revision +s ".json"))) [
        | inl m ↦ absurd (ground (arith, m))
        | inr (manifest, m) ↦ elim (Option-cases (tree.read (revision +s ".bit"))) [
          | inl b ↦ absurd (ground (arith, m, b))
          | inr (bitstream, b) ↦
              elim (Bool-cases (validate_manifest json digest revision manifest bitstream)) [
                | inr v ↦ absurd (ground (arith, m, b, v))
                | inl v ↦ (
                  record { revision = revision; bitstream = bitstream; manifest = manifest },
                  record { same_revision = refl; manifest = m; bitstream = b; valid = v },
                  copy_files-some resources out_dir revision manifest bitstream before after
                      (ground (arith, m, b, v)),
                )
              ]
        ]
      ]

  -- What the loop leaves when each revision has given a resource.
  all_embedded : String → String → List String → List GlasgowResource → Built → Built
  unfolding embedded
  all_embedded resources out_dir [] rs built = built
  all_embedded resources out_dir (revision ∷ rest) [] built = built
  all_embedded resources out_dir (revision ∷ rest) (r ∷ rs) built =
      all_embedded resources out_dir rest rs (embedded resources out_dir revision r built)

  abbrev pub AllTracked : List String → List GlasgowResource → Type 0
  AllTracked [] [] = Unit
  AllTracked (name ∷ names) (r ∷ rs) = Tracked name r × AllTracked names rs
  AllTracked _ _ = ⊥

  embed_all-some :
      (resources out_dir : String) (names : List String) (before after : Built)
      → embed_all json digest tree resources out_dir names before ≡ some after
      → (rs : List GlasgowResource) × AllTracked names rs
        × (after ≡ all_embedded resources out_dir names rs before)
  unfolding embed_all all_embedded
  embed_all-some resources out_dir [] before after e = ([], tt, ground arith)
  embed_all-some resources out_dir (name ∷ names) before after e =
      elim (Option-cases (embed json digest tree resources out_dir name before)) [
        | inl n ↦ absurd (ground (arith, n))
        | inr (next, n) ↦
            let (r, t, same) = embed-some resources out_dir name before next n in
            let (rs, ts, more) =
              embed_all-some resources out_dir names next after (ground (arith, n)) in
            (r ∷ rs, (t, ts), more ∙ ap (λ b. all_embedded resources out_dir names rs b) same)
      ]

  -- The text of the table in this directory: for each of the four revisions its name, and then the
  -- bitstream and the manifest by the paths of their copies.
  abbrev entry : String → String → String
  entry out_dir revision =
      "    GlasgowResource { revision: \"" +s revision +s "\", bitstream: include_bytes!(r\""
      +s out_dir +s "/" +s revision +s ".bit\"), manifest: include_bytes!(r\"" +s out_dir +s "/"
      +s revision +s ".json\") },\n"

  abbrev pub table_of : String → String
  table_of out_dir =
      let head : String = "pub static GLASGOW_RESOURCES: &[GlasgowResource] = &[\n" in
      let one = head +s entry out_dir "C0" in
      let two = one +s entry out_dir "C1" in
      let three = two +s entry out_dir "C2" in
      let four = three +s entry out_dir "C3" in four +s "];\n"

  -- The contents of the file with this name.
  abbrev pub file_named : List (String × List ℕ) → String → Option (List ℕ)
  file_named [] name = none
  file_named ((other, bytes) ∷ files) name =
      let earlier = file_named files name in if same_text other name then some bytes else earlier

  -- The two files of a revision are copies of the tracked ones, which pass the assertions.
  abbrev pub Copied : Built → String → Type 0
  Copied built revision =
      (r : GlasgowResource) × Tracked revision r
      × (file_named built.files (revision +s ".bit") ≡ some r.bitstream)
      × (file_named built.files (revision +s ".json") ≡ some r.manifest)

  pub record IsComplete (built : Built) : Type 0 where
    pub out_dir : String
    pub into : tree.out_dir ≡ some out_dir
    pub table : built.source ≡ some (table_of out_dir)
    pub copied : All (Copied built) ("C0" ∷ "C1" ∷ "C2" ∷ "C3" ∷ [])

  four-AllCopied :
      (resources out_dir : String) (rs : List GlasgowResource) (built : Built)
      → AllTracked revisions rs
      → built.files ≡ (all_embedded resources out_dir revisions rs started).files
      → All (Copied built) ("C0" ∷ "C1" ∷ "C2" ∷ "C3" ∷ [])
  unfolding all_embedded embedded add_row
  four-AllCopied resources out_dir [] built h e = absurd h
  four-AllCopied resources out_dir (r0 ∷ []) built h e = absurd h.1
  four-AllCopied resources out_dir (r0 ∷ r1 ∷ []) built h e = absurd h.1.1
  four-AllCopied resources out_dir (r0 ∷ r1 ∷ r2 ∷ []) built h e = absurd h.1.1.1
  four-AllCopied resources out_dir (r0 ∷ r1 ∷ r2 ∷ r3 ∷ _ ∷ _) built h e = absurd h.1.1.1.1
  four-AllCopied resources out_dir (r0 ∷ r1 ∷ r2 ∷ r3 ∷ []) built (t0, (t1, (t2, (t3, _)))) e =
      let at : (name : String)
          → file_named built.files name
            ≡ file_named
                (all_embedded resources out_dir revisions (r0 ∷ r1 ∷ r2 ∷ r3 ∷ []) started).files
                name =
        λ name. ap (λ files. file_named files name) e in
      (
        (r0, t0, at "C0.bit", at "C0.json"),
        (
          (r1, t1, at "C1.bit", at "C1.json"),
          ((r2, t2, at "C2.bit", at "C2.json"), ((r3, t3, at "C3.bit", at "C3.json"), tt)),
        ),
      )

  four_listed :
      (resources out_dir : String) (rs : List GlasgowResource)
      → AllTracked revisions rs
      → (all_embedded resources out_dir revisions rs started).generated +s "];\n" ≡ table_of out_dir
  unfolding all_embedded embedded add_row row_text
  four_listed resources out_dir [] h = absurd h
  four_listed resources out_dir (r0 ∷ []) h = absurd h.1
  four_listed resources out_dir (r0 ∷ r1 ∷ []) h = absurd h.1.1
  four_listed resources out_dir (r0 ∷ r1 ∷ r2 ∷ []) h = absurd h.1.1.1
  four_listed resources out_dir (r0 ∷ r1 ∷ r2 ∷ r3 ∷ _ ∷ _) h = absurd h.1.1.1.1
  four_listed resources out_dir (r0 ∷ r1 ∷ r2 ∷ r3 ∷ []) h = refl

  finish-some :
      (before after : Built)
      → finish tree before ≡ some after
      → (after.files ≡ before.files) × (after.source ≡ some (before.generated +s "];\n"))
  unfolding finish
  finish-some before after e = ground arith

  write_table-IsComplete :
      (resources : String) (built : Built)
      → write_table json digest tree resources ≡ some built
      → IsComplete built
  unfolding write_table
  write_table-IsComplete resources built e = elim (Option-cases tree.out_dir) [
    | inl o ↦ absurd (ground (arith, o))
    | inr (out_dir, o) ↦
        elim (Option-cases (embed_all json digest tree resources out_dir revisions started)) [
          | inl n ↦ absurd (ground (arith, o, n))
          | inr (next, n) ↦
              let (rs, tracked, same) = embed_all-some resources out_dir revisions started next n in
              let (files, source) = finish-some next built (ground (arith, o, n)) in
              record {
                out_dir = out_dir;
                into = o;
                table =
                    source
                    ∙ ap (λ b. some (b.generated +s "];\n")) same
                    ∙ ap (λ t. some t) (four_listed resources out_dir rs tracked);
                copied =
                    four-AllCopied resources out_dir rs built tracked
                      (files ∙ ap (λ b. b.files) same);
              }
        ]
  ]

  build_cases :
      (built : Built)
      → build json digest tree ≡ some built
      → (resources : String) × (write_table json digest tree resources ≡ some built)
  unfolding build
  build_cases built e = elim (Option-cases tree.resources) [
    | inl n ↦ absurd (ground (arith, n))
    | inr (resources, n) ↦ (resources, ground (arith, n))
  ]

  -- A build that succeeds wrote, as the source of the table, just the text that lists the four
  -- revisions and nothing else, each with the paths of its bitstream and its manifest in `OUT_DIR`;
  -- and the files at these paths are unchanged copies of the tracked ones, which passed every
  -- assertion.
  pub build-IsComplete : (built : Built) → build json digest tree ≡ some built → IsComplete built
  build-IsComplete built e =
      let (resources, w) = build_cases built e in write_table-IsComplete resources built w

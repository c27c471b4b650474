-- ===== src/Glasgow/Firmware/Ram.antt =====
-- What the upload leaves in the controller's RAM (src/uart/glasgow/management.rs).
use glasgow_tool.Prelude.{
  ℕ, zero, suc, ◌+◌, ◌*◌, ◌%◌, ◌^◌, ◌≡◌, refl, sym, ap, ap₂, ◌∙◌, inl, inr, Option, none, some,
  List, [], ◌∷◌, ◌++◌, take, drop, length, append_assoc, append-nil, arith, ltb, Bool-cases,
}
use glasgow_tool.Error.{ok, err, Result-cases}
use glasgow_tool.Act.{pure, fail, give, call}
use glasgow_tool.Act.Keeps.{bind_ok}
use glasgow_tool.Glasgow.Resource.{FirmwareSegment, decode_hex}
use glasgow_tool.Glasgow.Firmware.{
  Bus, cypress_ram, cypress_cpucs, chunk_bytes, ram_write, write_chunk, write_chunks, write_segment,
  write_segments, write_firmware,
}

-- The bytes with their addresses, which have 16 bits.
abbrev pub placed : ℕ → List ℕ → List (ℕ × ℕ)
placed address [] = []
placed address (b ∷ bytes) = (address % 2 ^ 16, b) ∷ placed (suc address) bytes

placed_wraps :
    (a b : ℕ) (bytes : List ℕ) → a % 2 ^ 16 ≡ b % 2 ^ 16 → placed a bytes ≡ placed b bytes
placed_wraps a b [] h = refl
placed_wraps a b (x ∷ bytes) h =
    ap₂ (λ y ys. (y, x) ∷ ys) h (placed_wraps (suc a) (suc b) bytes (omega (arith, h)))

placed_split :
    (n a : ℕ) (bytes : List ℕ)
    → placed a bytes ≡ placed a (take n bytes) ++ placed (a + n) (drop n bytes)
placed_split zero a bytes = ap (λ m. placed m bytes) (omega arith)
placed_split (suc n) a [] = refl
placed_split (suc n) a (x ∷ bytes) =
    ap (λ l. (a % 2 ^ 16, x) ∷ l)
      (placed_split n (suc a) bytes
        ∙ ap (λ m. placed (suc a) (take n bytes) ++ placed m (drop n bytes)) (omega arith))

-- The bytes of the segments, one segment after the other; `none` if a text is not hexadecimal.
abbrev pub image : List FirmwareSegment → Option (List (ℕ × ℕ))
image [] = some []
image (segment ∷ segments) = elim (decode_hex segment.data_hex) [
  | err error ↦ none
  | ok bytes ↦ elim (image segments) [
    | none ↦ none
    | some rest ↦ some (placed segment.address bytes ++ rest)
  ]
]

-- What is written of the RAM: a write that is accepted writes its bytes from its address on.
pub record RamLaws {W : Type 0} (bus : Bus W) : Type 0 where
  pub written : W → List (ℕ × ℕ)
  pub writes :
      (address : ℕ) (bytes : List ℕ) (w w' : W)
      → bus.control_out cypress_ram address 0 bytes w ≡ (ok tt, w')
      → written w' ≡ written w ++ placed address bytes

module _ {W : Type 0} (bus : Bus W) (law : RamLaws bus) where
  ram_write_ok :
      (address : ℕ) (bytes : List ℕ) (w w' : W)
      → ram_write bus address bytes w ≡ some (ok tt, w')
      → law.written w' ≡ law.written w ++ placed address bytes
  unfolding ram_write call
  ram_write_ok address bytes w w' e =
      elim (Result-cases (bus.control_out cypress_ram address 0 bytes w).0) [
        | inl (x, p) ↦ absurd (ground (arith, e, p))
        | inr (a, p) ↦ law.writes address bytes w w' (ground (arith, e, p))
      ]

  write_chunk_ok :
      (address offset : ℕ) (bytes : List ℕ) (w w' : W)
      → write_chunk bus address offset bytes w ≡ some (ok tt, w')
      → law.written w' ≡ law.written w ++ placed (address + offset) bytes
  unfolding write_chunk fail
  write_chunk_ok address offset bytes w w' e = elim (Bool-cases (ltb offset (2 ^ 16))) [
    | inl t ↦
        let run : ram_write bus ((address + offset) % 2 ^ 16) bytes w ≡ some (ok tt, w') =
          ground (arith, e, t) in
        ram_write_ok ((address + offset) % 2 ^ 16) bytes w w' run
        ∙ ap (λ l. law.written w ++ l)
            (placed_wraps ((address + offset) % 2 ^ 16) (address + offset) bytes (omega arith))
    | inr t ↦ absurd (ground (arith, e, t))
  ]

  write_chunks_ok :
      (fuel address index : ℕ) (bytes : List ℕ) (w w' : W)
      → write_chunks bus fuel address index bytes w ≡ some (ok tt, w')
      → law.written w' ≡ law.written w ++ placed (address + index * chunk_bytes) bytes
  unfolding write_chunks pure
  write_chunks_ok fuel address index [] w w' e =
      let same : w ≡ w' = ground (arith, e) in ap law.written (sym same) ∙ sym (append-nil _)
  write_chunks_ok zero address index (b ∷ bytes) w w' e = cc
  write_chunks_ok (suc fuel) address index (b ∷ bytes) w w' e =
      let start = address + index * chunk_bytes in
      let all = b ∷ bytes in
      let (a, w1, first, rest) = bind_ok _ _ w w' tt e in
      let written_first =
        write_chunk_ok address (index * chunk_bytes) (take chunk_bytes all) w w1
          (ground (arith, first)) in
      let written_rest =
        write_chunks_ok fuel address (suc index) (drop chunk_bytes all) w1 w' rest in
      let shift : address + suc index * chunk_bytes ≡ start + chunk_bytes = omega arith in
      written_rest
      ∙ ap₂ (λ l n. l ++ placed n (drop chunk_bytes all)) written_first shift
      ∙ append_assoc (law.written w) (placed start (take chunk_bytes all)) _
      ∙ ap (λ l. law.written w ++ l) (sym (placed_split chunk_bytes start all))

  write_segment_ok :
      (segment : FirmwareSegment) (w w' : W)
      → write_segment bus segment w ≡ some (ok tt, w')
      → (bytes : List ℕ) × (decode_hex segment.data_hex ≡ ok bytes)
        × (law.written w' ≡ law.written w ++ placed segment.address bytes)
  unfolding write_segment give
  write_segment_ok segment w w' e =
      let (bytes, w1, decoded, rest) = bind_ok _ _ w w' tt e in
      let same : w ≡ w1 = ground (arith, decoded) in
      let run = write_chunks_ok (length bytes) segment.address 0 bytes w1 w' rest in
      (
        bytes,
        ground (arith, decoded),
        run ∙ ap₂ (λ v n. law.written v ++ placed n bytes) (sym same) (omega arith),
      )

  write_segments_ok :
      (segments : List FirmwareSegment) (w w' : W)
      → write_segments bus segments w ≡ some (ok tt, w')
      → (bytes : List (ℕ × ℕ)) × (image segments ≡ some bytes)
        × (law.written w' ≡ law.written w ++ bytes)
  unfolding write_segments pure
  write_segments_ok [] w w' e =
      let same : w ≡ w' = ground (arith, e) in
      ([], refl, ap law.written (sym same) ∙ sym (append-nil _))
  write_segments_ok (segment ∷ segments) w w' e =
      let (a, w1, first, rest) = bind_ok _ _ w w' tt e in
      let (bytes, decoded, written_first) = write_segment_ok segment w w1 (ground (arith, first)) in
      let (more, rest_image, written_rest) = write_segments_ok segments w1 w' rest in
      (
        placed segment.address bytes ++ more,
        ground (arith, decoded, rest_image),
        written_rest
            ∙ ap (λ l. l ++ more) written_first
            ∙ append_assoc (law.written w) (placed segment.address bytes) more,
      )

  -- A firmware upload that succeeds has put the controller into reset, written the bytes of every
  -- segment to their addresses, in order and with nothing between, and let the controller run.
  pub write_firmware-Written :
      (segments : List FirmwareSegment) (w w' : W)
      → write_firmware bus segments w ≡ some (ok tt, w')
      → (bytes : List (ℕ × ℕ)) × (image segments ≡ some bytes)
        × (law.written w'
            ≡ law.written w ++ (cypress_cpucs, 1) ∷ (bytes ++ (cypress_cpucs, 0) ∷ []))
  unfolding write_firmware
  write_firmware-Written segments w w' e =
      let (a, w1, first, rest) = bind_ok _ _ w w' tt e in
      let (b, w2, second, last) = bind_ok _ _ w1 w' tt rest in
      let (bytes, of_image, middle) = write_segments_ok segments w1 w2 (ground (arith, second)) in
      let start = ram_write_ok cypress_cpucs (1 ∷ []) w w1 (ground (arith, first)) in
      let end = ram_write_ok cypress_cpucs (0 ∷ []) w2 w' last in
      let before : law.written w2 ≡ law.written w ++ (cypress_cpucs, 1) ∷ bytes =
        middle
        ∙ ap (λ l. l ++ bytes) start
        ∙ append_assoc (law.written w) ((cypress_cpucs, 1) ∷ []) bytes in
      let whole : law.written w'
          ≡ (law.written w ++ (cypress_cpucs, 1) ∷ bytes) ++ (cypress_cpucs, 0) ∷ [] =
        end ∙ ap (λ l. l ++ (cypress_cpucs, 0) ∷ []) before in
      (
        bytes,
        of_image,
        whole ∙ append_assoc (law.written w) ((cypress_cpucs, 1) ∷ bytes) ((cypress_cpucs, 0) ∷ []),
      )

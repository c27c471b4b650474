-- ===== src/Glasgow/Firmware/Back.antt =====
-- The wait for the board after the upload (src/uart/glasgow/management.rs), and that the upload ends.
use glasgow_tool.Prelude.{
  ℕ, zero, suc, ◌+◌, ◌%◌, ◌^◌, ◌≤◌, ◌<◌, ◌≡◌, ◌≢◌, refl, inl, inr, true, none, some, List, [], ◌∷◌,
  drop, length, length-drop, leb, ltb, arith, Bool-cases, Option-cases,
}
use glasgow_tool.Error.{Error, Result, ok, err, Result-cases}
use glasgow_tool.Session.{from_millis, from_secs}
use glasgow_tool.Act.{Act, pure, fail, give, call}
use glasgow_tool.Act.Keeps.{bind_ok, bind-ne-none}
use glasgow_tool.Glasgow.Device.{DeviceInfo}
use glasgow_tool.Glasgow.Resource.{FirmwareSegment}
use glasgow_tool.Glasgow.Firmware.{
  Bus, chunk_bytes, is_same_board, find_board, ram_write, write_chunk, write_chunks, write_segment,
  write_segments, write_firmware, boards_now, look, wait_board, await_board, upload_fx2_firmware,
}

find_board_same :
    (selected device : DeviceInfo) (devices : List DeviceInfo)
    → find_board selected devices ≡ some device
    → is_same_board selected device ≡ true
unfolding find_board
find_board_same selected device [] e = cc
find_board_same selected device (d ∷ ds) e = elim (Bool-cases (is_same_board selected d)) [
  | inl t ↦ ground (arith, t)
  | inr t ↦ find_board_same selected device ds (ground (arith, t))
]

module _ {W : Type 0} (bus : Bus W) where
  -- The last enumeration of the bus had this board, with the selected one's serial number and path.
  abbrev pub IsBack : DeviceInfo → DeviceInfo → W → Type 0
  IsBack selected device w' =
      (v : W) × (devices : List DeviceInfo) × (boards_now bus v ≡ (ok devices, w'))
      × (find_board selected devices ≡ some device)
      × (is_same_board selected device ≡ true)

  look_ok :
      (again : Act W DeviceInfo) (selected device : DeviceInfo) (deadline : ℕ) (v w' : W)
      (r : Result Error (List DeviceInfo) × W)
      → boards_now bus v ≡ r
      → ((u : W) → again u ≡ some (ok device, w') → IsBack selected device w')
      → look bus again selected deadline r ≡ some (ok device, w')
      → IsBack selected device w'
  unfolding look
  look_ok again selected device deadline v w' (err x, w) p ih e = cc
  look_ok again selected device deadline v w' (ok devices, w) p ih e =
      let (now, w1) = bus.clock.now w in
      elim (Option-cases (find_board selected devices)) [
        | inl f ↦ elim (Bool-cases (leb deadline now)) [
          | inl late ↦ absurd (ground (arith, f, late))
          | inr late ↦ ih (bus.clock.sleep (from_millis 100) w1) (ground (arith, f, late))
        ]
        | inr (d, f) ↦
            let found : find_board selected devices ≡ some device = ground (arith, f) in
            (v, devices, ground (arith, p, f), found, find_board_same selected device devices found)
      ]

  wait_board_ok :
      (fuel : ℕ) (selected device : DeviceInfo) (deadline : ℕ) (w w' : W)
      → wait_board bus fuel selected deadline w ≡ some (ok device, w')
      → IsBack selected device w'
  unfolding wait_board
  wait_board_ok zero selected device deadline w w' e = cc
  wait_board_ok (suc fuel) selected device deadline w w' e =
      look_ok (wait_board bus fuel selected deadline) selected device deadline w w'
        (boards_now bus w) refl (λ u. wait_board_ok fuel selected device deadline u w') e

  -- The board that an upload returns is the selected one, by serial number and path, as the last
  -- enumeration of the bus describes it.
  pub upload-IsBack :
      (fuel : ℕ) (selected device : DeviceInfo) (segments : List FirmwareSegment) (w w' : W)
      → upload_fx2_firmware bus fuel selected segments w ≡ some (ok device, w')
      → IsBack selected device w'
  unfolding upload_fx2_firmware await_board
  upload-IsBack fuel selected device segments w w' e =
      let (a, w1, p1, e1) = bind_ok _ _ w w' device e in
      let (b, w2, p2, e2) = bind_ok _ _ w1 w' device e1 in
      let (c, w3, p3, e3) = bind_ok _ _ w2 w' device e2 in
      let (d, w4, p4, e4) = bind_ok _ _ w3 w' device e3 in
      wait_board_ok fuel selected device _ _ w' e4

  -- The clock goes on, a sleep takes time, and no enumeration turns it back.
  pub record BoardTakesTime : Type 0 where
    pub time : W → ℕ
    pub now_time : (w : W) → (bus.clock.now w).0 ≡ time (bus.clock.now w).1
    pub time-now : (w : W) → time w ≤ time (bus.clock.now w).1
    pub time-sleep : (w : W) → time w < time (bus.clock.sleep (from_millis 100) w)
    pub time-boards_now : (w : W) → time w ≤ time (boards_now bus w).1

  look-ne-none :
      (law : BoardTakesTime) (again : Act W DeviceInfo) (selected : DeviceInfo) (n deadline : ℕ)
      (r : Result Error (List DeviceInfo) × W)
      → ((v : W) → 0 < n → deadline < law.time v + n → again v ≢ none)
      → deadline < law.time r.1 + suc n
      → look bus again selected deadline r ≢ none
  unfolding look
  look-ne-none law again selected n deadline (err x, w) ih h = λ e. cc
  look-ne-none law again selected n deadline (ok devices, w) ih h =
      let (now, w1) = bus.clock.now w in
      ground (
        arith,
        law.now_time w,
        law.time-now w,
        law.time-sleep w1,
        ih (bus.clock.sleep (from_millis 100) w1),
      )

  wait_board-ne-none :
      (law : BoardTakesTime) (fuel : ℕ) (selected : DeviceInfo) (deadline : ℕ) (w : W)
      → 0 < fuel
      → deadline < law.time w + fuel
      → wait_board bus fuel selected deadline w ≢ none
  unfolding wait_board
  wait_board-ne-none law zero selected deadline w z h = absurd (omega arith)
  wait_board-ne-none law (suc fuel) selected deadline w z h =
      look-ne-none law (wait_board bus fuel selected deadline) selected fuel deadline
        (boards_now bus w) (λ v. wait_board-ne-none law fuel selected deadline v)
        (omega (arith, law.time-boards_now w))

  call-ne-none :
      {E A : Type 0} (category : E → Error) (f : W → Result E A × W) (w : W)
      → call category f w ≢ none
  unfolding call
  call-ne-none category f w = elim (Result-cases (f w).0) [
    | inl (e, p) ↦ ground (arith, p)
    | inr (a, p) ↦ ground (arith, p)
  ]

  give-ne-none : {A : Type 0} (r : Result Error A) (w : W) → give r w ≢ none
  unfolding give
  give-ne-none r w = λ e. cc

  ram_write-ne-none : (address : ℕ) (bytes : List ℕ) (w : W) → ram_write bus address bytes w ≢ none
  unfolding ram_write
  ram_write-ne-none address bytes w = call-ne-none _ _ w

  write_chunk-ne-none :
      (address offset : ℕ) (bytes : List ℕ) (w : W) → write_chunk bus address offset bytes w ≢ none
  unfolding write_chunk fail
  write_chunk-ne-none address offset bytes w = elim (Bool-cases (ltb offset (2 ^ 16))) [
    | inl t ↦ rw t (ram_write-ne-none ((address + offset) % 2 ^ 16) bytes w)
    | inr t ↦ rw t (λ e. cc)
  ]

  write_chunks-ne-none :
      (fuel address index : ℕ) (bytes : List ℕ) (w : W)
      → length bytes ≤ fuel
      → write_chunks bus fuel address index bytes w ≢ none
  unfolding write_chunks pure
  write_chunks-ne-none fuel address index [] w h = λ e. cc
  write_chunks-ne-none zero address index (b ∷ bytes) w h = absurd (omega arith)
  write_chunks-ne-none (suc fuel) address index (b ∷ bytes) w h =
      bind-ne-none _ _ w (write_chunk-ne-none address _ _ w) (λ _ w1 _.
        write_chunks-ne-none fuel address (suc index) (drop chunk_bytes (b ∷ bytes)) w1
          (omega (arith, length-drop chunk_bytes (b ∷ bytes))))

  write_segments-ne-none :
      (segments : List FirmwareSegment) (w : W) → write_segments bus segments w ≢ none
  unfolding write_segments write_segment pure
  write_segments-ne-none [] w = λ e. cc
  write_segments-ne-none (segment ∷ segments) w =
      bind-ne-none _ _ w
        (bind-ne-none _ _ w (give-ne-none _ w) (λ bytes w1 _.
          write_chunks-ne-none (length bytes) segment.address 0 bytes w1 (omega arith)))
        (λ _ w1 _. write_segments-ne-none segments w1)

  write_firmware-ne-none :
      (segments : List FirmwareSegment) (w : W) → write_firmware bus segments w ≢ none
  unfolding write_firmware
  write_firmware-ne-none segments w = bind-ne-none _ _ w (ram_write-ne-none _ _ w) (λ _ w1 _.
      bind-ne-none _ _ w1 (write_segments-ne-none segments w1) (λ _ w2 _. ram_write-ne-none _ _ w2))

  await_board-ne-none :
      (law : BoardTakesTime) (fuel : ℕ) (selected : DeviceInfo) (w : W)
      → from_secs 10 < fuel
      → await_board bus fuel selected w ≢ none
  unfolding await_board
  await_board-ne-none law fuel selected w h =
      wait_board-ne-none law fuel selected _ _ (omega arith)
        (omega (arith, law.now_time (bus.close w)))

  upload-ne-none :
      (law : BoardTakesTime) (fuel : ℕ) (selected : DeviceInfo) (segments : List FirmwareSegment)
      (w : W)
      → from_secs 10 < fuel
      → upload_fx2_firmware bus fuel selected segments w ≢ none
  unfolding upload_fx2_firmware
  upload-ne-none law fuel selected segments w h = bind-ne-none _ _ w (give-ne-none _ w) (λ _ w1 _.
      bind-ne-none _ _ w1 (call-ne-none _ _ w1) (λ _ w2 _.
        bind-ne-none _ _ w2 (call-ne-none _ _ w2) (λ _ w3 _.
          bind-ne-none _ _ w3 (write_firmware-ne-none segments w3)
            (λ _ w4 _. await_board-ne-none law fuel selected w4 h))))

  -- An upload ends: with a look at the bus for each nanosecond of its ten seconds it succeeds, fails or
  -- is late, if the clock does not go back and each sleep takes time.
  pub upload_returns :
      (law : BoardTakesTime) (fuel : ℕ) (selected : DeviceInfo) (segments : List FirmwareSegment)
      (w : W)
      → from_secs 10 < fuel
      → (out : Result Error DeviceInfo × W) × (upload_fx2_firmware bus fuel selected segments w
          ≡ some out)
  upload_returns law fuel selected segments w h =
      elim (Option-cases (upload_fx2_firmware bus fuel selected segments w)) [
        | inl e ↦ absurd (upload-ne-none law fuel selected segments w h e)
        | inr out ↦ out
      ]

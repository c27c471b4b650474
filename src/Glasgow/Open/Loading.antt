-- ===== src/Glasgow/Open/Loading.antt =====
-- The loading of the bitstream (src/uart/glasgow/transport.rs): what a success means, and that it ends.
use glasgow_tool.Prelude.{
  ℕ, zero, suc, ◌+◌, ◌≡◌, refl, ap, inl, inr, true, Option, none, some, same_bytes_exact, List, leb,
  arith, Bool-cases, if◌then◌else◌,
}
use glasgow_tool.Error.{Error, Result, ok, err}
use glasgow_tool.Session.{from_millis, from_secs}
use glasgow_tool.Act.{Act, pure, after}
use glasgow_tool.Act.Keeps.{bind_ok}
use glasgow_tool.Glasgow.Management.{Management, fpga_status}
use glasgow_tool.Glasgow.Open.{
  Device, ValidatedResource, is_loaded, step, wait_round, wait_loaded, load_anew, load_bitstream,
}

-- Only the status that is this identifier, byte for byte, is taken for it.
is_loaded_exact :
    (id : List ℕ) (status : Option (List ℕ)) → is_loaded id status ≡ true → status ≡ some id
unfolding is_loaded
is_loaded_exact id none h = cc
is_loaded_exact id (some other) h = ap (λ l. some l) (same_bytes_exact other id h)

module _ {W : Type 0} (device : Device W) (id : List ℕ) where
  -- The manager's last command was a question for the FPGA's status, and the answer this identifier.
  abbrev pub SawLoaded : Management W → Type 0
  SawLoaded m' =
      (m : Management W) × (status : Option (List ℕ)) × (fpga_status device.link m
        ≡ (ok status, m'))
      × (status ≡ some id)

  wait_round_ok :
      (again : Act (Management W) Unit) (deadline : ℕ) (status : Option (List ℕ))
      (m v m' : Management W)
      → ((v : Management W) → again v ≡ some (ok tt, m') → SawLoaded m')
      → fpga_status device.link v ≡ (ok status, m)
      → wait_round device again id deadline status m ≡ some (ok tt, m')
      → SawLoaded m'
  unfolding wait_round
  wait_round_ok again deadline status m v m' ih p e =
      let (now, w1) = device.link.clock.now m.world in
      let next : Management W = record m { world = device.link.clock.sleep (from_millis 10) w1 } in
      elim (Bool-cases (is_loaded id status)) [
        | inl l ↦ (v, status, ground (arith, p, l), is_loaded_exact id status l)
        | inr l ↦ elim (Bool-cases (leb deadline (device.link.clock.now m.world).0)) [
          | inl h ↦ absurd (ground (arith, l, h))
          | inr h ↦ ih next (ground (arith, l, h))
        ]
      ]

  after_status_ok :
      (again : Act (Management W) Unit) (deadline : ℕ)
      (r : Result Error (Option (List ℕ)) × Management W) (v m' : Management W)
      → ((v : Management W) → again v ≡ some (ok tt, m') → SawLoaded m')
      → fpga_status device.link v ≡ r
      → after (some r) (wait_round device again id deadline) ≡ some (ok tt, m')
      → SawLoaded m'
  after_status_ok again deadline (err x, m) v m' ih p e = cc
  after_status_ok again deadline (ok status, m) v m' ih p e =
      wait_round_ok again deadline status m v m' ih p e

  wait_loaded_ok :
      (fuel deadline : ℕ) (m m' : Management W)
      → wait_loaded device fuel id deadline m ≡ some (ok tt, m')
      → SawLoaded m'
  unfolding wait_loaded step
  wait_loaded_ok zero deadline m m' e = cc
  wait_loaded_ok (suc fuel) deadline m m' e =
      after_status_ok (wait_loaded device fuel id deadline) deadline (fpga_status device.link m) m
        m' (λ v. wait_loaded_ok fuel deadline v m') refl e

  given :
      (status : Option (List ℕ)) (m v m' : Management W) (resource : ValidatedResource) (fuel : ℕ)
      → resource.bitstream_id ≡ id
      → fpga_status device.link v ≡ (ok status, m)
      → (if is_loaded resource.bitstream_id status then pure tt else load_anew device fuel resource)
          m
        ≡ some (ok tt, m')
      → SawLoaded m'
  unfolding pure load_anew
  given status m v m' resource fuel same p e =
      elim (Bool-cases (is_loaded resource.bitstream_id status)) [
        | inl l ↦
            (v, status, ground (arith, p, l), is_loaded_exact id status (ground (arith, same, l)))
        | inr l ↦
            let run : load_anew device fuel resource m ≡ some (ok tt, m') = ground (arith, l) in
            let (a, m1, p1, e1) = bind_ok _ _ m m' tt run in
            let (b, m2, p2, e2) = bind_ok _ _ m1 m' tt e1 in
            let (c, m3, p3, e3) = bind_ok _ _ m2 m' tt e2 in
            let (d, m4, p4, e4) = bind_ok _ _ m3 m' tt e3 in
            let (f, m5, p5, e5) = bind_ok _ _ m4 m' tt e4 in
            let (g, m6, p6, e6) = bind_ok _ _ m5 m' tt e5 in
            let (now, w) = device.link.clock.now m6.world in
            wait_loaded_ok fuel (now + from_secs 2) (record m6 { world = w }) m'
              (ground (arith, same, e6))
      ]

-- Once `load_bitstream` has succeeded, the FPGA has reported the identifier of this bitstream, byte
-- for byte, as the answer to the last command.
pub load_bitstream-SawLoaded :
    {W : Type 0} (device : Device W) (fuel : ℕ) (resource : ValidatedResource) (m m' : Management W)
    → load_bitstream device fuel resource m ≡ some (ok tt, m')
    → SawLoaded device resource.bitstream_id m'
unfolding load_bitstream step
load_bitstream-SawLoaded device fuel resource m m' e =
    let (status, m1, p, rest) = bind_ok _ _ m m' tt e in
    given device resource.bitstream_id status m1 m m' resource fuel refl (ground (arith, p)) rest

-- ===== src/Glasgow/Transport/Drains.antt =====
-- The drain of the Glasgow transport (src/uart/glasgow/transport.rs).
use Prim.Native.Nat.{bit_and}
use glasgow_tool.Prelude.{
  ℕ, zero, suc, ◌+◌, ◌≤◌, ◌<◌, ◌≡◌, ◌≢◌, inl, inr, true, Option, none, some, arith, leb, Bool-cases,
  Option-cases,
}
use glasgow_tool.Error.{Error, Result, ok, Result-cases}
use glasgow_tool.Glasgow.Management.{Register, Management, read_register}
use glasgow_tool.Glasgow.Transport.{
  GlasgowHost, GlasgowTransport, State, is_idle, drain_poll, io_timeout, flush_pipe, drain_round,
  drain_loop, glasgow_drain,
}
use glasgow_tool.Glasgow.Transport.Reads.{read_register-ne-none}

-- The top bit of the state says that the transmitter is idle, the other 31 how much is queued.
idle_bits :
    (state : ℕ)
    → is_idle state ≡ true
    → (bit_and state 0x8000_0000 ≢ 0) × (bit_and state 0x7fff_ffff ≡ 0)
unfolding is_idle
idle_bits state e = (λ z. ground (arith, z), ground arith)

module _ {W : Type 0} (host : GlasgowHost W) where
  -- The state register was read with its top bit set and its other 31 bits clear, and that reading
  -- left this manager.
  abbrev pub SawIdle : Register → Management W → Type 0
  SawIdle register m' =
      (m : Management W) × (state : ℕ) × (read_register host.link register m ≡ some (ok state, m'))
      × (bit_and state 0x8000_0000 ≢ 0)
      × (bit_and state 0x7fff_ffff ≡ 0)

  drain_round_idle :
      (again : Management W → Option (Result Error Unit × Management W)) (register : Register)
      (deadline wait : ℕ) (m' : Management W)
      → ((m : Management W) → again m ≡ some (ok tt, m') → SawIdle register m')
      → (m : Management W) → drain_round host again register deadline wait m ≡ some (ok tt, m')
      → SawIdle register m'
  unfolding drain_round
  drain_round_idle again register deadline wait m' ih m e =
      elim (Option-cases (read_register host.link register m)) [
        | inl n ↦ absurd (ground (arith, n))
        | inr ((answer, m1), n) ↦ elim (Result-cases answer) [
          | inl (error, a) ↦ absurd (ground (arith, n, a))
          | inr (state, a) ↦ elim (Bool-cases (is_idle state)) [
            | inl idle ↦
                let (top, low) = idle_bits state idle in
                (m, state, ground (arith, n, a, idle), top, low)
            | inr busy ↦
                let (now, w2) = host.link.clock.now m1.world in
                elim (Bool-cases (leb deadline now)) [
                  | inl late ↦ absurd (ground (arith, n, a, busy, late))
                  | inr early ↦
                      ih (record m1 { world = host.link.clock.sleep drain_poll w2 })
                        (ground (arith, n, a, busy, early))
                ]
          ]
        ]
      ]

  drain_loop_idle :
      (fuel : ℕ) (register : Register) (deadline wait : ℕ) (m m' : Management W)
      → drain_loop host fuel register deadline wait m ≡ some (ok tt, m')
      → SawIdle register m'
  unfolding drain_loop
  drain_loop_idle zero register deadline wait m m' e = cc
  drain_loop_idle (suc fuel) register deadline wait m m' e =
      drain_round_idle (drain_loop host fuel register deadline wait) register deadline wait m'
        (λ v. drain_loop_idle fuel register deadline wait v m') m e

  -- A drain that succeeds ended with a reading of the state register in which the bit of an idle
  -- transmitter was set and the 31 bits of its queue's length were all clear.
  pub glasgow_drain_observed :
      (fuel wait : ℕ) (s : State host) (m' : Management W)
      → glasgow_drain host fuel wait s ≡ some (ok tt, m')
      → SawIdle s.0.tx_state_register m'
  unfolding glasgow_drain
  glasgow_drain_observed fuel wait (glasgow, m) m' e =
      let (now, w1) = host.link.clock.now m.world in
      let (flushed, m2) = flush_pipe host wait (record m { world = w1 }) in
      elim (Result-cases flushed) [
        | inl (error, f) ↦ absurd (ground (arith, f))
        | inr (x, f) ↦
            drain_loop_idle fuel glasgow.tx_state_register (now + wait) wait m2 m'
              (ground (arith, f))
      ]

  -- The clock goes on, whatever is asked of the board; a pause takes time.
  pub record DrainTakesTime (register : Register) : Type 0 where
    pub time : W → ℕ
    pub now_time : (w : W) → (host.link.clock.now w).0 ≡ time (host.link.clock.now w).1
    pub time-now : (w : W) → time w ≤ time (host.link.clock.now w).1
    pub time-sleep : (w : W) → time w < time (host.link.clock.sleep drain_poll w)
    pub time-read_register :
        (m m' : Management W) (r : Result Error ℕ)
        → read_register host.link register m ≡ some (r, m')
        → time m.world ≤ time m'.world
    pub time-set_write_timeout : (n : ℕ) (w : W) → time w ≤ time (host.set_write_timeout n w)
    pub time-flush : (w : W) → time w ≤ time (host.flush w).1

  drain_round-ne-none :
      (register : Register) (law : DrainTakesTime register) (n deadline wait : ℕ)
      (again : Management W → Option (Result Error Unit × Management W))
      → register.storage_bytes ≤ 4
      → ((m : Management W) → 0 < n → deadline < law.time m.world + n → again m ≢ none)
      → (m : Management W) → deadline < law.time m.world + suc n
      → drain_round host again register deadline wait m ≢ none
  unfolding drain_round
  drain_round-ne-none register law n deadline wait again small ih m h =
      elim (Option-cases (read_register host.link register m)) [
        | inl e ↦ absurd (read_register-ne-none host register m small e)
        | inr ((answer, m1), e) ↦ elim (Result-cases answer) [
          | inl (error, a) ↦ ground (arith, e, a)
          | inr (state, a) ↦
              let (now, w2) = host.link.clock.now m1.world in
              ground (
                arith,
                e,
                a,
                law.time-read_register m m1 answer e,
                law.now_time m1.world,
                law.time-now m1.world,
                law.time-sleep w2,
                ih (record m1 { world = host.link.clock.sleep drain_poll w2 }),
              )
        ]
      ]

  drain_loop-ne-none :
      (register : Register) (law : DrainTakesTime register) (fuel deadline wait : ℕ)
      → register.storage_bytes ≤ 4
      → (m : Management W) → 0 < fuel
      → deadline < law.time m.world + fuel
      → drain_loop host fuel register deadline wait m ≢ none
  unfolding drain_loop
  drain_loop-ne-none register law zero deadline wait small m z h = absurd (omega arith)
  drain_loop-ne-none register law (suc fuel) deadline wait small m z h =
      drain_round-ne-none register law fuel deadline wait
        (drain_loop host fuel register deadline wait) small
        (drain_loop-ne-none register law fuel deadline wait small) m h

  flush_pipe_time :
      (register : Register) (law : DrainTakesTime register) (wait : ℕ) (m : Management W)
      → law.time m.world ≤ law.time (flush_pipe host wait m).1.world
  unfolding flush_pipe
  flush_pipe_time register law wait m =
      let w1 = host.set_write_timeout wait m.world in
      let w2 = (host.flush w1).1 in
      ground (
        arith,
        law.time-set_write_timeout wait m.world,
        law.time-flush w1,
        law.time-set_write_timeout io_timeout w2,
      )

  flushed_drain :
      (fuel wait : ℕ) (glasgow : GlasgowTransport) (m : Management W)
      → let (now, w1) = host.link.clock.now m.world in
        drain_loop host fuel glasgow.tx_state_register
            (now + wait)
            wait
            (flush_pipe host wait (record m { world = w1 })).1
          ≢ none
        → glasgow_drain host fuel wait (glasgow, m) ≢ none
  unfolding glasgow_drain
  flushed_drain fuel wait glasgow m h = ground (arith, h)

  -- A drain ends: with one reading for each unit of its timeout it succeeds, fails or is late, if
  -- the clock does not go back, each pause takes time, and the register has at most four bytes, as
  -- those of an accepted manifest have.
  pub glasgow_drain_returns :
      (fuel wait : ℕ) (glasgow : GlasgowTransport) (m : Management W)
      → DrainTakesTime glasgow.tx_state_register
      → glasgow.tx_state_register.storage_bytes ≤ 4
      → wait < fuel
      → (out : Result Error Unit × Management W) × (glasgow_drain host fuel wait (glasgow, m)
          ≡ some out)
  glasgow_drain_returns fuel wait glasgow m law small h =
      let register = glasgow.tx_state_register in
      let (now, w1) = host.link.clock.now m.world in
      let m1 : Management W = record m { world = w1 } in
      let later = flush_pipe_time register law wait m1 in
      let loop =
        drain_loop-ne-none register law fuel (now + wait) wait small (flush_pipe host wait m1).1
          (omega arith) (omega (arith, later, law.now_time m.world)) in
      elim (Option-cases (glasgow_drain host fuel wait (glasgow, m))) [
        | inl e ↦ absurd (flushed_drain fuel wait glasgow m loop e)
        | inr out ↦ out
      ]

-- ===== src/C232/Vcp/Drains.antt =====
-- The drain over the serial driver (src/uart/c232/vcp.rs).
use glasgow_tool.Prelude.{ℕ, ◌+◌, ◌<◌, ◌≡◌, true, some, arith, inl, inr}
use glasgow_tool.Error.{Error, Result, ok, Result-cases}
use glasgow_tool.Poll.{poll_ok, poll_returns, Advances}
use glasgow_tool.C232.Vcp.{
  SerialHost, VcpTransport, State, drain_poll, queue_probe, still_queued, vcp_drain,
}

module _ {W : Type 0} (host : SerialHost W) where
  queue_probe_ok :
      (vcp : VcpTransport) (w w' : W)
      → queue_probe host vcp w ≡ (ok true, w')
      → host.bytes_to_write w ≡ (ok 0, w')
  unfolding queue_probe
  queue_probe_ok vcp w w' e = elim (Result-cases (host.bytes_to_write w).0) [
    | inl (error, a) ↦ absurd (ground (arith, a))
    | inr (n, a) ↦ ground (arith, a)
  ]

  -- A drain that succeeds ended with the driver's answer that nothing is queued.
  pub vcp_drain_observed :
      (fuel wait : ℕ) (s : State host) (w' : W)
      → vcp_drain host fuel wait s ≡ some (ok tt, w')
      → (w : W) × (host.bytes_to_write w ≡ (ok 0, w'))
  unfolding vcp_drain
  vcp_drain_observed fuel wait (vcp, w) w' e =
      let (now, w1) = host.clock.now w in
      let (v, seen) =
        poll_ok host.clock (queue_probe host vcp) drain_poll (now + wait) (still_queued vcp wait)
          fuel w1 w' e in
      (v, queue_probe_ok vcp v w' seen)

  -- A drain ends: with one look at the queue for each unit of its timeout it succeeds, fails or is
  -- late, if the clock does not go back and each pause takes time.
  pub vcp_drain_returns :
      (fuel wait : ℕ) (vcp : VcpTransport) (w : W)
      → Advances host.clock
          (queue_probe host vcp)
          drain_poll
          ((host.clock.now w).0 + wait)
          (still_queued vcp wait)
      → wait < fuel
      → (out : Result Error Unit × W) × (vcp_drain host fuel wait (vcp, w) ≡ some out)
  unfolding vcp_drain
  vcp_drain_returns fuel wait vcp w law h =
      let (now, w1) = host.clock.now w in
      poll_returns host.clock (queue_probe host vcp) drain_poll (now + wait) (still_queued vcp wait)
        law fuel w1 (omega arith) (omega (arith, law.now_time w))

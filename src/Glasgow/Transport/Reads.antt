-- ===== src/Glasgow/Transport/Reads.antt =====
-- What a read of the Glasgow transport returns (src/uart/glasgow/transport.rs).
use glasgow_tool.Prelude.{
  ℕ, ◌≤◌, ◌≡◌, ◌≢◌, refl, inl, inr, false, none, some, List, [], ◌∷◌, length, arith, Option-cases,
}
use glasgow_tool.Error.{Result-cases, Error, Result, ok, err, IoError}
use glasgow_tool.Transport.{TransferOutcome}
use glasgow_tool.Glasgow.Management.{
  Register, Management, command, request_fpga_get_reg, register_value, read_register,
}
use glasgow_tool.Glasgow.Transport.{
  GlasgowHost, State, received, after_refresh, poll_counters, refresh_counters, glasgow_read,
  map_io_error,
}

-- The bytes that an answer of the endpoint gives.
abbrev pub given : Result IoError (List ℕ) → List ℕ
given (ok bytes) = bytes
given (err error) = []

module _ {W : Type 0} (host : GlasgowHost W) where
  received_exact :
      (answer : Result IoError (List ℕ))
      → ((received answer).1 ≡ given answer)
        × ((received answer).0.completed ≡ length (given answer))
  unfolding received map_io_error
  received_exact (ok bytes) = (refl, refl)
  received_exact (err error) = (refl, refl)

  after_refresh_exact :
      (outcome : TransferOutcome) (bytes : List ℕ) (refreshed : Result Error Unit × State host)
      → ((after_refresh host outcome bytes refreshed).1 ≡ bytes)
        × ((after_refresh host outcome bytes refreshed).0.completed ≡ outcome.completed)
  unfolding after_refresh
  after_refresh_exact outcome bytes (ok x, s) = (refl, refl)
  after_refresh_exact outcome bytes (err error, s) = (refl, refl)

  -- A read of a transport that is not cancelled hands on the bytes that the endpoint gave and counts
  -- just these, also when the counters cannot be read.
  glasgow_read_exact :
      (capacity : ℕ) (s s' : State host) (outcome : TransferOutcome) (bytes : List ℕ)
      → s.0.cancelled ≡ false
      → glasgow_read host capacity s ≡ some (outcome, bytes, s')
      → (bytes ≡ given (host.read capacity s.1.world).0) × (outcome.completed ≡ length bytes)
  unfolding glasgow_read
  glasgow_read_exact capacity s s' outcome bytes open_ e =
      let (answer, w1) = host.read capacity s.1.world in
      let (o, b) = received answer in
      elim (Option-cases (refresh_counters host (s.0, record s.1 { world = w1 }))) [
        | inl n ↦ absurd (ground (arith, n))
        | inr (refreshed, n) ↦
            ground (arith, n, received_exact answer, after_refresh_exact o b refreshed)
      ]

  register_value-ne-none :
      (width : ℕ) (response : List ℕ) → width ≤ 4 → register_value width response ≢ none
  unfolding register_value
  register_value-ne-none width response h = ground arith

  pub read_register-ne-none :
      (register : Register) (m : Management W)
      → register.storage_bytes ≤ 4
      → read_register host.link register m ≢ none
  unfolding read_register
  read_register-ne-none register m h =
      let packet = request_fpga_get_reg ∷ register.address ∷ register.storage_bytes ∷ [] in
      elim (Result-cases (command host.link packet m).0) [
        | inl (error, e) ↦ ground (arith, e)
        | inr (response, e) ↦
            ground (arith, e, register_value-ne-none register.storage_bytes response h)
      ]

  poll_counters-ne-none :
      (s : State host)
      → s.0.rx_errors_register.storage_bytes ≤ 4
      → s.0.rx_overflow_register.storage_bytes ≤ 4
      → poll_counters host s ≢ none
  unfolding poll_counters
  poll_counters-ne-none (glasgow, m) small small' =
      elim (Option-cases (read_register host.link glasgow.rx_errors_register m)) [
        | inl n ↦ absurd (read_register-ne-none glasgow.rx_errors_register m small n)
        | inr ((answer, m1), n) ↦
            ground (arith, n, read_register-ne-none glasgow.rx_overflow_register m1 small')
      ]

  refresh_counters-ne-none :
      (s : State host)
      → s.0.rx_errors_register.storage_bytes ≤ 4
      → s.0.rx_overflow_register.storage_bytes ≤ 4
      → refresh_counters host s ≢ none
  unfolding refresh_counters
  refresh_counters-ne-none (glasgow, m) small small' =
      let (now, w1) = host.link.clock.now m.world in
      ground (arith, poll_counters-ne-none (glasgow, record m { world = w1 }) small small')

  returns :
      (s : State host)
      → s.0.rx_errors_register.storage_bytes ≤ 4
      → s.0.rx_overflow_register.storage_bytes ≤ 4
      → (capacity : ℕ) → glasgow_read host capacity s ≢ none
  unfolding glasgow_read
  returns (glasgow, m) small small' capacity =
      let (answer, w1) = host.read capacity m.world in
      ground (arith, refresh_counters-ne-none (glasgow, record m { world = w1 }) small small')

  -- A read returns: it does not panic over its registers, if they have at most four bytes, as those
  -- of an accepted manifest have.
  pub glasgow_read_returns :
      (capacity : ℕ) (s : State host)
      → s.0.rx_errors_register.storage_bytes ≤ 4
      → s.0.rx_overflow_register.storage_bytes ≤ 4
      → (out : TransferOutcome × List ℕ × State host) × (glasgow_read host capacity s ≡ some out)
  glasgow_read_returns capacity s small small' =
      elim (Option-cases (glasgow_read host capacity s)) [
        | inl e ↦ absurd (returns s small small' capacity e)
        | inr out ↦ out
      ]

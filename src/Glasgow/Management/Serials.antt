-- ===== src/Glasgow/Management/Serials.antt =====
-- The serial numbers that pair a command with its response (src/uart/glasgow/management.rs).
use glasgow_tool.Prelude.{
  ℕ, zero, suc, ◌+◌, ◌-◌, ◌%◌, ◌≤◌, ◌<◌, ◌≡◌, refl, ◌∙◌, ◌⊎◌, inl, inr, List, [], ◌∷◌, length,
  arith,
}
use glasgow_tool.Error.{Result-cases, Error, protocol, Result, ok, err}
use glasgow_tool.Glasgow.Management.{
  Link, Management, next_serial, send_packet, check_response, receive_response, exchange, command,
}

-- The serial number of the k-th command after the one with this number.
pub later : ℕ → ℕ → ℕ
later zero serial = serial
later (suc k) serial = next_serial (later k serial)

later_closed :
    (k serial : ℕ) → 1 ≤ serial → serial ≤ 255 → later k serial ≡ (serial - 1 + k) % 255 + 1
unfolding later next_serial
later_closed zero serial lo hi = omega arith
later_closed (suc k) serial lo hi = ground (arith, later_closed k serial lo hi)

-- A response that comes late, to the question of one of the next 254 commands, is refused.
pub late_response_refused :
    (k serial : ℕ) (rest : List ℕ)
    → 1 ≤ serial
    → serial ≤ 255
    → 0 < k
    → k < 255
    → check_response (later k serial) (serial ∷ rest)
      ≡ err (protocol "Glasgow management response serial mismatch")
unfolding check_response
late_response_refused k serial rest lo hi some_k few = ground (arith, later_closed k serial lo hi)

sent_cases : (r : Result Error Unit) → ((error : Error) × (r ≡ err error)) ⊎ (r ≡ ok tt)
sent_cases (ok tt) = inr refl
sent_cases (err error) = inl (error, refl)

module _ {W : Type 0} (link : Link W) where
  -- The link answered a read with this serial number and this response.
  abbrev pub Answered : ℕ → List ℕ → W → Type 0
  Answered serial response w' = (w : W) × (link.read 64 w ≡ (ok (serial ∷ response), w'))

  check_response_ok :
      (serial : ℕ) (bytes response : List ℕ)
      → check_response serial bytes ≡ ok response
      → bytes ≡ serial ∷ response
  unfolding check_response
  check_response_ok serial [] response e = cc
  check_response_ok serial (first ∷ rest) response e = ground arith

  receive_response_ok :
      (serial : ℕ) (response : List ℕ) (m m' : Management W)
      → receive_response link serial m ≡ (ok response, m')
      → (link.read 64 m.world ≡ (ok (serial ∷ response), m'.world)) × (m'.serial ≡ m.serial)
  unfolding receive_response
  receive_response_ok serial response m m' e = elim (Result-cases (link.read 64 m.world).0) [
    | inl (error, h) ↦ absurd (ground (arith, h))
    | inr (bytes, h) ↦ ground (arith, h, check_response_ok serial bytes response)
  ]

  send_packet_serial :
      (packet : List ℕ) (m : Management W) → (send_packet link packet m).1.serial ≡ m.serial
  unfolding send_packet
  send_packet_serial packet m = ground arith

  exchange_ok :
      (serial : ℕ) (payload response : List ℕ) (m m' : Management W)
      → exchange link serial payload m ≡ (ok response, m')
      → Answered serial response m'.world × (m'.serial ≡ m.serial)
  unfolding exchange
  exchange_ok serial payload response m m' e =
      let (r, m1) = send_packet link (serial ∷ payload) m in
      let same = send_packet_serial (serial ∷ payload) m in
      elim (sent_cases r) [
        | inl (error, h) ↦ absurd (ground (arith, h))
        | inr h ↦
            let (answer, kept) = receive_response_ok serial response m1 m' (ground (arith, h)) in
            ((m1.world, answer), kept ∙ same)
      ]

  -- A command that succeeds fits the 63 bytes of payload, returns what follows its own serial number
  -- in an answer of the link, and moves the manager on to the next serial number.
  pub command-Answered :
      (payload response : List ℕ) (m m' : Management W)
      → command link payload m ≡ (ok response, m')
      → (length payload ≤ 63)
        × Answered m.serial response m'.world
        × (m'.serial ≡ next_serial m.serial)
  unfolding command
  command-Answered payload response m m' e =
      ground (
        arith,
        exchange_ok m.serial payload response (record m { serial = next_serial m.serial }) m',
      )

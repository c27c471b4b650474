-- ===== src/Tests/Managing.antt =====
-- Commands to a management endpoint (src/uart/glasgow/management.rs) that answers at once.
use glasgow_tool.Prelude.{ℕ, ◌≡◌, ◌≤◌, refl, List, [], ◌∷◌, ◌++◌, take, arith}
use glasgow_tool.Error.{protocol, ok, err}
use glasgow_tool.Glasgow.Management.{
  Link, Management, next_serial, send_packet, check_response, receive_response, exchange, command,
}
use glasgow_tool.Glasgow.Management.Serials.{
  later, late_response_refused, Answered, command-Answered,
}

-- The world is the last packet; the board acknowledges it.
abbrev pub echo_link : Link (List ℕ)
echo_link = record {
  write_all = λ packet w. (ok tt, packet);
  flush = λ w. (ok tt, w);
  read = λ n w. (ok (take 1 w ++ 0 ∷ []), w);
  clock = record { now = λ w. (0, w); sleep = λ n w. w };
}

late_response_refused_example :
    check_response (later 3 254) (254 ∷ 0 ∷ [])
    ≡ err (protocol "Glasgow management response serial mismatch")
late_response_refused_example =
    late_response_refused 3 254 (0 ∷ []) (omega arith) (omega arith) (omega arith) (omega arith)

abbrev manager : Management (List ℕ)
manager = record { serial = 255; world = [] }

acknowledges :
    command echo_link (0x22 ∷ []) manager
    ≡ (ok (0 ∷ []), record { serial = 1; world = 255 ∷ 0x22 ∷ [] })
unfolding command exchange send_packet receive_response check_response next_serial
acknowledges = refl

command-Answered_example :
    (1 ≤ 63) × Answered echo_link 255 (0 ∷ []) (255 ∷ 0x22 ∷ []) × (1 ≡ next_serial 255)
command-Answered_example =
    command-Answered echo_link (0x22 ∷ []) (0 ∷ []) manager
      (record { serial = 1; world = 255 ∷ 0x22 ∷ [] }) acknowledges

-- ===== src/C232/Status.antt =====
-- `strip_ftdi_status_from` of src/uart/c232/usb.rs: each USB packet of an FTDI transfer begins with
-- a modem status byte and a line status byte, which are taken off and counted.
pub mod Frames
pub mod Fuel
pub mod Bits
use Prim.Native.Nat.{bit_and, bit_or}
use glasgow_tool.Prelude.{
  ℕ, zero, suc, ◌+◌, ◌-◌, Bool, true, false, not, Option, none, some, List, [], ◌∷◌, ◌++◌, ltb,
  ◌==◌, if◌then◌else◌, length, take, drop,
}
use glasgow_tool.Error.{Error, protocol, Result, ok, err}

abbrev pub line_oe : ℕ
line_oe = 2

abbrev pub line_pe : ℕ
line_pe = 4

abbrev pub line_fe : ℕ
line_fe = 8

abbrev pub line_bi : ℕ
line_bi = 16

abbrev pub line_temt : ℕ
line_temt = 64

pub record FtdiLineCounters : Type 0 where
  pub errors : ℕ
  pub overflow : ℕ
  pub transmitter_empty : Bool

abbrev pub no_counters : FtdiLineCounters
no_counters = record { errors = 0; overflow = 0; transmitter_empty = false }

-- `x & mask != 0`
abbrev pub has_bits : ℕ → ℕ → Bool
has_bits x mask = not (bit_and x mask == 0)

-- `u64::from(b)`
abbrev pub as_count : Bool → ℕ
as_count true = 1
as_count false = 0

-- `line & !previous` on bytes
unfoldable pub asserted : ℕ → ℕ → ℕ
asserted line previous = bit_and line (255 - previous)

unfoldable pub is_overflow : ℕ → Option ℕ → Bool
unfolding asserted
is_overflow line none = false
is_overflow line (some previous) = has_bits (asserted line previous) line_oe

unfoldable pub is_error : ℕ → Option ℕ → Bool
unfolding asserted
is_error line none = false
is_error line (some previous) =
    has_bits (asserted line previous) (bit_or (bit_or line_pe line_fe) line_bi)

-- The counters after a packet with this line status.
unfoldable pub count_line : ℕ → Option ℕ → FtdiLineCounters → FtdiLineCounters
count_line line previous counters = record {
  errors = counters.errors + as_count (is_error line previous);
  overflow = counters.overflow + as_count (is_overflow line previous);
  transmitter_empty = has_bits line line_temt;
}

abbrev pub Stripped : Type 0
Stripped = Result Error (List ℕ × FtdiLineCounters × Option ℕ)

-- The loop over the packets of `transfer.chunks(max_packet)`, the payload and counters so far in
-- its arguments. The chunks are cut as the loop goes, one for each unit of fuel.
unfoldable pub strip_packets : ℕ → ℕ → List ℕ → List ℕ → FtdiLineCounters → Option ℕ → Stripped
strip_packets zero max_packet transfer payload counters previous = ok (payload, counters, previous)
strip_packets (suc fuel) max_packet [] payload counters previous = ok (payload, counters, previous)
strip_packets (suc fuel) max_packet (_ ∷ []) payload counters previous =
    err (protocol "FTDI USB packet ended inside its status header")
strip_packets (suc fuel) max_packet (_ ∷ line ∷ rest) payload counters previous =
    strip_packets fuel max_packet (drop (max_packet - 2) rest)
      (payload ++ take (max_packet - 2) rest) (count_line line previous counters) (some line)

-- A transfer of n bytes has at most n packets.
unfoldable pub strip_ftdi_status_from : List ℕ → ℕ → Option ℕ → Stripped
strip_ftdi_status_from transfer max_packet previous =
    if ltb max_packet 2
    then err (protocol "FTDI endpoint max-packet size is smaller than its status header")
    else strip_packets (length transfer) max_packet transfer [] no_counters previous

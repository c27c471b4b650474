-- ===== src/C232/Status/Frames.antt =====
-- The status headers of packets that are framed one after the other (src/uart/c232/usb.rs).
use glasgow_tool.Prelude.{
  ℕ, zero, suc, ◌+◌, ◌-◌, ◌≤◌, ◌<◌, ◌≡◌, sym, ap, ap₂, le→ltb_not, ◌∙◌, Bool, false, ◌||◌, Option,
  none, some, List, [], ◌∷◌, ◌++◌, arith, length, take, drop, length-append, append_assoc,
  append-nil, take-append, take-all, drop-all, drop-append,
}
use native.Mathlib.Nat.{add-zero, zero-add}
use glasgow_tool.Error.{ok}
use glasgow_tool.C232.Status.{
  FtdiLineCounters, no_counters, as_count, has_bits, line_temt, count_line, Stripped, strip_packets,
  strip_ftdi_status_from, is_error, is_overflow,
}
use glasgow_tool.C232.Status.Bits.{rises, is_overflow-eq-rises, is_error-eq-rises}

-- A USB packet as the FT232H sends it.
pub record Packet : Type 0 where
  pub modem : ℕ
  pub line : ℕ
  pub payload : List ℕ

abbrev pub frames : List Packet → List ℕ
frames [] = []
frames (p ∷ ps) = p.modem ∷ p.line ∷ (p.payload ++ frames ps)

-- Every packet but the last is full.
abbrev pub AreFull : ℕ → List Packet → Type 0
AreFull max_packet [] = Unit
AreFull max_packet (p ∷ []) = (p.line < 256) × (length p.payload ≤ max_packet - 2)
AreFull max_packet (p ∷ q ∷ ps) =
    (p.line < 256) × (length p.payload ≡ max_packet - 2) × AreFull max_packet (q ∷ ps)

abbrev pub payloads : List Packet → List ℕ
payloads [] = []
payloads (p ∷ ps) = p.payload ++ payloads ps

-- The line statuses of a list of packets, after the status `previous`.
abbrev pub edges : (ℕ → ℕ → Bool) → Option ℕ → List Packet → ℕ
edges test previous [] = 0
edges test none (p ∷ ps) = edges test (some p.line) ps
edges test (some l) (p ∷ ps) = as_count (test p.line l) + edges test (some p.line) ps

abbrev pub last_line : Option ℕ → List Packet → Option ℕ
last_line previous [] = previous
last_line previous (p ∷ ps) = last_line (some p.line) ps

abbrev pub ends_empty : Bool → List Packet → Bool
ends_empty b [] = b
ends_empty b (p ∷ ps) = ends_empty (has_bits p.line line_temt) ps

abbrev pub overrun : ℕ → ℕ → Bool
overrun = rises 2

-- A parity error, a framing error or a break.
abbrev pub line_fault : ℕ → ℕ → Bool
line_fault line previous =
    rises 4 line previous || (rises 8 line previous || rises 16 line previous)

abbrev pub Fits : Option ℕ → Type 0
Fits none = Unit
Fits (some l) = l < 256

abbrev counted : FtdiLineCounters → Option ℕ → List Packet → FtdiLineCounters
counted c previous ps = record {
  errors = c.errors + edges line_fault previous ps;
  overflow = c.overflow + edges overrun previous ps;
  transmitter_empty = ends_empty c.transmitter_empty ps;
}

shift : (a e : ℕ) → (a + 0) + e ≡ a + e
shift a e = omega arith

tally : (a b b' e : ℕ) → b ≡ b' → (a + b) + e ≡ a + (b' + e)
tally a b b' e h = omega arith

counted_step :
    (c : FtdiLineCounters) (previous : Option ℕ) (p : Packet) (ps : List Packet)
    → Fits previous
    → p.line < 256
    → counted (count_line p.line previous c) (some p.line) ps ≡ counted c previous (p ∷ ps)
unfolding count_line is_error is_overflow
counted_step c none p ps h l = λ i. record {
  errors = shift c.errors (edges line_fault (some p.line) ps) i;
  overflow = shift c.overflow (edges overrun (some p.line) ps) i;
  transmitter_empty = ends_empty (has_bits p.line line_temt) ps;
}
counted_step c (some q) p ps h l =
    let faults = ap as_count (is_error-eq-rises p.line q l h) in
    let overruns = ap as_count (is_overflow-eq-rises p.line q l h) in
    λ i. record {
      errors = tally c.errors _ _ (edges line_fault (some p.line) ps) faults i;
      overflow = tally c.overflow _ _ (edges overrun (some p.line) ps) overruns i;
      transmitter_empty = ends_empty (has_bits p.line line_temt) ps;
    }

cut_payload :
    (n : ℕ) (p : Packet) (ps : List Packet)
    → AreFull n (p ∷ ps)
    → (take (n - 2) (p.payload ++ frames ps) ≡ p.payload)
      × (drop (n - 2) (p.payload ++ frames ps) ≡ frames ps)
cut_payload n p [] h =
    rw (append-nil p.payload) (take-all (n - 2) p.payload h.1, drop-all (n - 2) p.payload h.1)
cut_payload n p (q ∷ ps) h = (
  take-append (n - 2) p.payload (frames (q ∷ ps)) h.1,
  drop-append (n - 2) p.payload (frames (q ∷ ps)) h.1,
)

nothing_more :
    (payload : List ℕ) (c : FtdiLineCounters) (previous : Option ℕ)
    → ◌≡◌ {A = Stripped}
        (ok (payload ++ [], counted c previous [], previous))
        (ok (payload, c, previous))
nothing_more payload c previous = λ i. ok (
  append-nil payload i,
  record {
    errors = add-zero c.errors i;
    overflow = add-zero c.overflow i;
    transmitter_empty = c.transmitter_empty;
  },
  previous,
)

AreFull-line : (n : ℕ) (p : Packet) (ps : List Packet) → AreFull n (p ∷ ps) → p.line < 256
AreFull-line n p [] h = h.0
AreFull-line n p (q ∷ ps) h = h.0

AreFull-tail : (n : ℕ) (p : Packet) (ps : List Packet) → AreFull n (p ∷ ps) → AreFull n ps
AreFull-tail n p [] h = tt
AreFull-tail n p (q ∷ ps) h = h.2

strip_frames :
    (f n : ℕ) (ps : List Packet) (payload : List ℕ) (c : FtdiLineCounters) (previous : Option ℕ)
    → length (frames ps) ≤ f
    → AreFull n ps
    → Fits previous
    → strip_packets f n (frames ps) payload c previous
      ≡ ok (payload ++ payloads ps, counted c previous ps, last_line previous ps)
unfolding strip_packets
strip_frames zero n [] payload c previous hf full h = sym (nothing_more payload c previous)
strip_frames (suc f) n [] payload c previous hf full h = sym (nothing_more payload c previous)
strip_frames zero n (p ∷ ps) payload c previous hf full h = absurd (omega arith)
strip_frames (suc f) n (p ∷ ps) payload c previous hf full h =
    let (taken, dropped) = cut_payload n p ps full in
    let line = AreFull-line n p ps full in
    let shorter = length-append p.payload (frames ps) in
    let ih =
      strip_frames f n ps (payload ++ p.payload) (count_line p.line previous c) (some p.line)
        (omega arith) (AreFull-tail n p ps full) line in
    rw (taken, dropped)
      (ih
        ∙ ap₂ (λ b k. ok (b, k, last_line (some p.line) ps))
            (append_assoc payload p.payload (payloads ps)) (counted_step c previous p ps h line))

-- The payload of well-formed packets is returned whole and in order; an overrun is counted for each
-- packet whose overrun bit has just risen, an error for each whose parity, framing or break bit
-- has, and the status of the last packet is handed on to the next transfer.
pub strip_ftdi_status_of_frames :
    (n : ℕ) (ps : List Packet) (previous : Option ℕ)
    → 2 ≤ n
    → AreFull n ps
    → Fits previous
    → strip_ftdi_status_from (frames ps) n previous
      ≡ ok (
        payloads ps,
        record {
          errors = edges line_fault previous ps;
          overflow = edges overrun previous ps;
          transmitter_empty = ends_empty false ps;
        },
        last_line previous ps,
      )
unfolding strip_ftdi_status_from
strip_ftdi_status_of_frames n ps previous small full h = rw (le→ltb_not n 2 small) (
    strip_frames (length (frames ps)) n ps [] no_counters previous (omega arith) full h ∙ λ i. ok (
      payloads ps,
      record {
        errors = zero-add (edges line_fault previous ps) i;
        overflow = zero-add (edges overrun previous ps) i;
        transmitter_empty = ends_empty false ps;
      },
      last_line previous ps,
    ))

-- ===== src/Session/Coordinator/Ending.antt =====
-- The end of the coordinator's loop, and its deadline (src/uart/session.rs).
use glasgow_tool.Prelude.{
  ℕ, ◌+◌, ◌-◌, ◌≤◌, ◌<◌, ◌≡◌, Bool, true, false, ◌&&◌, ◌||◌, not, none, some, List, [], ◌∷◌, arith,
  max,
}
use glasgow_tool.Session.{SessionOptions, rx_idle, tx_drained, tx_stopped, rx_stopped, worker_error}
use glasgow_tool.Session.Coordinator.{
  Locals, Tick, Received, start, iterate, in_loop, run, on_signal, on_idle, on_deadline,
  on_received, event, elapsed, disconnected,
}

abbrev pub is_tx_word : Received → Bool
is_tx_word (event tx_stopped) = true
is_tx_word _ = false

abbrev pub is_rx_word : Received → Bool
is_rx_word (event rx_stopped) = true
is_rx_word _ = false

abbrev pub is_loss : Received → Bool
is_loss disconnected = true
is_loss _ = false

-- Some round receives such a thing.
abbrev pub hears : (Received → Bool) → List Tick → Bool
hears p [] = false
hears p (t ∷ ts) = p t.received || hears p ts

pub record HasWords (s u : Locals) (tx rx loss : Bool) : Type 0 where
  pub tx_word : u.tx_done ≡ (s.tx_done || tx)
  pub rx_word : u.rx_done ≡ (s.rx_done || rx)
  pub lost : u.left ≡ (s.left || loss)

module _ (options : SessionOptions) (t : Tick) (s : Locals) where
  on_signal_words : HasWords s (on_signal options t s) false false false
  unfolding on_signal
  on_signal_words = ground arith

  on_idle_words : HasWords s (on_idle options t s) false false false
  unfolding on_idle
  on_idle_words = ground arith

  on_deadline_words : HasWords s (on_deadline t s) false false false
  unfolding on_deadline
  on_deadline_words = ground arith

  on_received_words :
      (r : Received)
      → HasWords s (on_received options t r s) (is_tx_word r) (is_rx_word r) (is_loss r)
  unfolding on_received
  on_received_words (event (tx_drained reason)) = ground arith
  on_received_words (event (worker_error error)) = ground arith
  on_received_words _ = ground arith

pub iterate_words :
    (options : SessionOptions) (t : Tick) (s : Locals)
    → HasWords s
        (iterate options t s)
        (is_tx_word t.received)
        (is_rx_word t.received)
        (is_loss t.received)
unfolding iterate
iterate_words options t s =
    let s1 = on_signal options t s in
    let s2 = on_idle options t s1 in
    ground (
      arith,
      on_signal_words options t s,
      on_idle_words options t s1,
      on_deadline_words options t s2,
      on_received_words options t (on_deadline t s2) t.received,
    )

abbrev pub is_over : Bool → Bool → Bool → Bool
is_over left tx rx = left || (tx && rx)

pub run_over :
    (options : SessionOptions) (ts : List Tick) (s : Locals)
    → in_loop (run options ts s)
      ≡ not (
          is_over
            (s.left || hears is_loss ts)
            (s.tx_done || hears is_tx_word ts)
            (s.rx_done || hears is_rx_word ts))
unfolding run
run_over options [] s = ground arith
run_over options (t ∷ ts) s =
    ground (arith, iterate_words options t s, run_over options ts (iterate options t s))

-- The loop is over exactly when the channel was lost, or both workers have reported that they
-- stopped. No timeout, failure or cancellation ends it before.
pub loop_end_exact :
    (options : SessionOptions) (ts : List Tick)
    → in_loop (run options ts (start [] false))
      ≡ not (is_over (hears is_loss ts) (hears is_tx_word ts) (hears is_rx_word ts))
loop_end_exact options ts = run_over options ts (start [] false)

-- Rounds in which nothing arrives, of a session that has been quiet for the idle timeout since it
-- drained at `started`; the clock moves on by less than the drain timeout within a round.
abbrev pub AreQuiet : SessionOptions → ℕ → List Tick → Type 0
AreQuiet options started [] = Unit
AreQuiet options started (t ∷ ts) =
    (t.received ≡ elapsed)
    × (options.rx_idle_timeout ≤ t.at_quiet - max t.last_rx started)
    × (t.at_join < t.at_idle + options.drain_timeout)
    × AreQuiet options started ts

pub record IsIdling (started : ℕ) (s : Locals) : Type 0 where
  pub drained : s.drained_at ≡ some started
  pub reason : s.stop_reason ≡ some rx_idle
  pub no_failure : s.failure ≡ none
  pub waiting : in_loop s ≡ true

module _ (options : SessionOptions) (started : ℕ) (t : Tick) (s : Locals) where
  on_signal-IsIdling : IsIdling started s → IsIdling started (on_signal options t s)
  unfolding on_signal
  on_signal-IsIdling h = ground arith

  -- The deadline is set anew.
  on_idle-IsIdling :
      options.rx_idle_timeout ≤ t.at_quiet - max t.last_rx started
      → IsIdling started s
      → IsIdling started (on_idle options t s)
        × ((on_idle options t s).join_deadline ≡ some (t.at_idle + options.drain_timeout))
  unfolding on_idle
  on_idle-IsIdling q h = ground arith

  on_deadline-IsIdling :
      (deadline : ℕ)
      → t.at_join < deadline
      → s.join_deadline ≡ some deadline
      → IsIdling started s
      → IsIdling started (on_deadline t s)
  unfolding on_deadline
  on_deadline-IsIdling deadline l d h = ground arith

  on_received-IsIdling :
      (r : Received)
      → r ≡ elapsed
      → IsIdling started s
      → IsIdling started (on_received options t r s)
  unfolding on_received
  on_received-IsIdling r e h = rw e h

iterate-IsIdling :
    (options : SessionOptions) (started : ℕ) (t : Tick) (s : Locals)
    → t.received ≡ elapsed
    → options.rx_idle_timeout ≤ t.at_quiet - max t.last_rx started
    → t.at_join < t.at_idle + options.drain_timeout
    → IsIdling started s
    → IsIdling started (iterate options t s)
unfolding iterate
iterate-IsIdling options started t s r q l h =
    let s1 = on_signal options t s in
    let s2 = on_idle options t s1 in
    let (idling, deadline) =
      on_idle-IsIdling options started t s1 q (on_signal-IsIdling options started t s h) in
    on_received-IsIdling options started t (on_deadline t s2) t.received r (
      on_deadline-IsIdling options started t s2 (t.at_idle + options.drain_timeout) l deadline
        idling)

-- A session that stopped for RX idle and whose workers do not report their stop waits for ever
-- without the error of the drain timeout: each quiet round sets the deadline anew.
pub idle_never_times_out :
    (options : SessionOptions) (started : ℕ) (ts : List Tick) (s : Locals)
    → AreQuiet options started ts
    → IsIdling started s
    → IsIdling started (run options ts s)
unfolding run
idle_never_times_out options started [] s q h = h
idle_never_times_out options started (t ∷ ts) s (r, i, l, q) h = ground (
  arith,
  iterate-IsIdling options started t s r i l h,
  idle_never_times_out options started ts (iterate options t s) q,
)

-- ===== src/Session/Run/Channel.antt =====
-- The channel from the two workers to the coordinator (src/uart/session.rs): an error that a worker
-- sends before it stops becomes the session's failure.
use glasgow_tool.Prelude.{
  ◌≡◌, refl, sym, ap, subst, ◌∙◌, ◌⊎◌, inl, inr, Bool, true, false, List, [], ◌∷◌, is_none, arith,
  All, ◌||◌,
}
use glasgow_tool.Session.{
  SessionOptions, WorkerEvent, tx_drained, rx_activity, worker_error, tx_stopped, rx_stopped,
}
use glasgow_tool.Session.Coordinator.{
  Locals, Tick, Received, event, elapsed, disconnected, iterate, in_loop, run, on_signal, on_idle,
  on_deadline, on_received,
}
use glasgow_tool.Session.Coordinator.Ending.{iterate_words, is_loss, is_tx_word, is_rx_word, hears}

-- The rounds receive the events of the two workers, each one's in the order in which it sent them;
-- in a round between, nothing may come within its time.
pub data Merge : List WorkerEvent → List WorkerEvent → List Tick → Type 0 where
  finished : Merge [] [] []
  of_first :
      {e : WorkerEvent} {mine other : List WorkerEvent} {t : Tick} {ts : List Tick}
      → t.received ≡ event e
      → Merge mine other ts
      → Merge (e ∷ mine) other (t ∷ ts)
  of_second :
      {e : WorkerEvent} {mine other : List WorkerEvent} {t : Tick} {ts : List Tick}
      → t.received ≡ event e
      → Merge mine other ts
      → Merge mine (e ∷ other) (t ∷ ts)
  in_between :
      {mine other : List WorkerEvent} {t : Tick} {ts : List Tick}
      → t.received ≡ elapsed
      → Merge mine other ts
      → Merge mine other (t ∷ ts)

pub swapped :
    {mine other : List WorkerEvent} {ts : List Tick} → Merge mine other ts → Merge other mine ts
swapped finished = finished
swapped (of_first r m) = of_second r (swapped m)
swapped (of_second r m) = of_first r (swapped m)
swapped (in_between r m) = in_between r (swapped m)

abbrev is_error : WorkerEvent → Bool
is_error (worker_error error) = true
is_error _ = false

-- What a worker sends has an error, and no word of its stop before.
abbrev pub Fails : (WorkerEvent → Bool) → List WorkerEvent → Type 0
Fails word [] = ⊥
Fails word (e ∷ events) = (is_error e ≡ true) ⊎ (word e ≡ false) × Fails word events

abbrev pub Avoids : (WorkerEvent → Bool) → List WorkerEvent → Type 0
Avoids word = All (λ e. word e ≡ false)

-- One of the events passes the test.
abbrev pub Has : (WorkerEvent → Bool) → List WorkerEvent → Type 0
Has p [] = ⊥
Has p (e ∷ events) = (p e ≡ true) ⊎ Has p events

abbrev is_word : (WorkerEvent → Bool) → Received → Bool
is_word word (event e) = word e
is_word word _ = false

-- A local variable that is set by the word of one worker's stop, and keeps the loop going before.
pub record Flag (options : SessionOptions) (done : Locals → Bool) (word : WorkerEvent → Bool)
    : Type 0 where
  pub step :
      (t : Tick) (s : Locals) → done (iterate options t s) ≡ (done s || is_word word t.received)
  pub going : (s : Locals) → s.left ≡ false → done s ≡ false → in_loop s ≡ true

module _ (options : SessionOptions) (t : Tick) (s : Locals) where
  on_signal_failed : is_none s.failure ≡ false → is_none (on_signal options t s).failure ≡ false
  unfolding on_signal
  on_signal_failed h = ground arith

  on_idle_failed : is_none s.failure ≡ false → is_none (on_idle options t s).failure ≡ false
  unfolding on_idle
  on_idle_failed h = ground arith

  on_deadline_failed : is_none s.failure ≡ false → is_none (on_deadline t s).failure ≡ false
  unfolding on_deadline
  on_deadline_failed h = ground arith

  on_received_failed :
      (r : Received)
      → is_none s.failure ≡ false
      → is_none (on_received options t r s).failure ≡ false
  unfolding on_received
  on_received_failed (event (tx_drained reason)) h = ground arith
  on_received_failed (event (worker_error error)) h = ground arith
  on_received_failed _ h = ground arith

  on_error_fails :
      (e : WorkerEvent)
      → is_error e ≡ true
      → is_none (on_received options t (event e) s).failure ≡ false
  unfolding on_received
  on_error_fails (worker_error error) h = ground arith
  on_error_fails (tx_drained reason) h = cc
  on_error_fails rx_activity h = cc
  on_error_fails tx_stopped h = cc
  on_error_fails rx_stopped h = cc

module _ (options : SessionOptions) where
  iterate_failed :
      (t : Tick) (s : Locals)
      → is_none s.failure ≡ false
      → is_none (iterate options t s).failure ≡ false
  unfolding iterate
  iterate_failed t s h =
      let s1 = on_signal options t s in
      let s2 = on_idle options t s1 in
      let h1 = on_signal_failed options t s h in
      let h2 = on_idle_failed options t s1 h1 in
      on_received_failed options t (on_deadline t s2) t.received
        (on_deadline_failed options t s2 h2)

  iterate_fails :
      (t : Tick) (s : Locals) (e : WorkerEvent)
      → t.received ≡ event e
      → is_error e ≡ true
      → is_none (iterate options t s).failure ≡ false
  unfolding iterate
  iterate_fails t s e r h =
      let s3 = on_deadline t (on_idle options t (on_signal options t s)) in
      subst (λ x. is_none (on_received options t x s3).failure ≡ false) (sym r)
        (on_error_fails options t s3 e h)

  run_failed :
      (ts : List Tick) (s : Locals)
      → is_none s.failure ≡ false
      → is_none (run options ts s).failure ≡ false
  unfolding run
  run_failed [] s h = h
  run_failed (t ∷ ts) s h =
      ground (arith, run_failed ts (iterate options t s) (iterate_failed t s h))

  run_on :
      (t : Tick) (ts : List Tick) (s : Locals)
      → in_loop s ≡ true
      → run options (t ∷ ts) s ≡ run options ts (iterate options t s)
  unfolding run
  run_on t ts s h = ground arith

  not_lost :
      (t : Tick) (s : Locals)
      → is_loss t.received ≡ false
      → s.left ≡ false
      → (iterate options t s).left ≡ false
  not_lost t s h l = let words = iterate_words options t s in ground (arith, words.lost)

module _ (options : SessionOptions) (done : Locals → Bool) (word : WorkerEvent → Bool)
    (flag : Flag options done word) where
  -- A round that receives nothing, or an event that is not the word.
  passed :
      (t : Tick) (s : Locals)
      → is_word word t.received ≡ false
      → done s ≡ false
      → done (iterate options t s) ≡ false
  passed t s h d = ground (arith, flag.step t s)

  went_on :
      (t : Tick) (ts : List Tick) (s : Locals)
      → in_loop s ≡ true
      → is_none (run options ts (iterate options t s)).failure ≡ false
      → is_none (run options (t ∷ ts) s).failure ≡ false
  went_on t ts s going h = ap (λ u. is_none u.failure) (run_on options t ts s going) ∙ h

  -- An error that a worker sends before its stop makes the session fail, whatever the other worker
  -- sends and however the two mix.
  pub heard_failure :
      {mine other : List WorkerEvent} {ts : List Tick}
      → Merge mine other ts
      → (s : Locals) → s.left ≡ false
      → done s ≡ false
      → Fails word mine
      → Avoids word other
      → is_none (run options ts s).failure ≡ false
  heard_failure finished s l d f a = absurd f
  heard_failure (of_first {e = e} {t = t} {ts = ts} r m) s l d (inl bad) a =
      went_on t ts s (flag.going s l d)
        (run_failed options ts (iterate options t s) (iterate_fails options t s e r bad))
  heard_failure (of_first {t = t} {ts = ts} r m) s l d (inr (plain, more)) a =
      went_on t ts s (flag.going s l d) (
        heard_failure m (iterate options t s) (not_lost options t s (ap is_loss r) l)
          (passed t s (ap (is_word word) r ∙ plain) d) more a)
  heard_failure (of_second {t = t} {ts = ts} r m) s l d f (plain, a) =
      went_on t ts s (flag.going s l d) (
        heard_failure m (iterate options t s) (not_lost options t s (ap is_loss r) l)
          (passed t s (ap (is_word word) r ∙ plain) d) f a)
  heard_failure (in_between {t = t} {ts = ts} r m) s l d f a = went_on t ts s (flag.going s l d) (
      heard_failure m (iterate options t s) (not_lost options t s (ap is_loss r) l)
        (passed t s (ap (is_word word) r) d) f a)

abbrev pub is_tx_stop : WorkerEvent → Bool
is_tx_stop tx_stopped = true
is_tx_stop _ = false

abbrev pub is_rx_stop : WorkerEvent → Bool
is_rx_stop rx_stopped = true
is_rx_stop _ = false

tx_words : (r : Received) → is_tx_word r ≡ is_word is_tx_stop r
tx_words (event (tx_drained reason)) = refl
tx_words (event rx_activity) = refl
tx_words (event (worker_error error)) = refl
tx_words (event tx_stopped) = refl
tx_words (event rx_stopped) = refl
tx_words elapsed = refl
tx_words disconnected = refl

rx_words : (r : Received) → is_rx_word r ≡ is_word is_rx_stop r
rx_words (event (tx_drained reason)) = refl
rx_words (event rx_activity) = refl
rx_words (event (worker_error error)) = refl
rx_words (event tx_stopped) = refl
rx_words (event rx_stopped) = refl
rx_words elapsed = refl
rx_words disconnected = refl

pub tx-Flag : (options : SessionOptions) → Flag options (λ s. s.tx_done) is_tx_stop
tx-Flag options = record {
  step =
      λ t s. (iterate_words options t s).tx_word ∙ ap (λ b. s.tx_done || b) (tx_words t.received);
  going = λ s l d. ground arith;
}

pub rx-Flag : (options : SessionOptions) → Flag options (λ s. s.rx_done) is_rx_stop
rx-Flag options = record {
  step =
      λ t s. (iterate_words options t s).rx_word ∙ ap (λ b. s.rx_done || b) (rx_words t.received);
  going = λ s l d. ground arith;
}

-- An event that a worker sent is received.
pub Merge-hears :
    {mine other : List WorkerEvent} {ts : List Tick} (p : Received → Bool)
    → Merge mine other ts
    → Has (λ e. p (event e)) mine
    → hears p ts ≡ true
Merge-hears p finished h = absurd h
Merge-hears p (of_first {ts = ts} r m) (inl here) = ap (λ b. b || hears p ts) (ap p r ∙ here)
Merge-hears p (of_first {t = t} {ts = ts} r m) (inr later) =
    let rest = Merge-hears p m later in ground (arith, rest)
Merge-hears p (of_second {t = t} {ts = ts} r m) h =
    let rest = Merge-hears p m h in ground (arith, rest)
Merge-hears p (in_between {t = t} {ts = ts} r m) h =
    let rest = Merge-hears p m h in ground (arith, rest)

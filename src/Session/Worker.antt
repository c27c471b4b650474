-- ===== src/Session/Worker.antt =====
-- What a worker thread of src/uart/session.rs works with: the world outside it, its own counters
-- and the events that it sends. A worker is an action that may still be running when its fuel is
-- spent (`none`), and what it did before an error stays done.
use glasgow_tool.Prelude.{ℕ, Bool, Option, none, some, List, [], ◌∷◌, ◌++◌}
use glasgow_tool.Error.{Error, Result, ok, err, IoError}
use glasgow_tool.Session.{AtomicStatistics, WorkerEvent}

-- The reader, the output, the cancellation flag and the clock, as they answer in a world `W`. What
-- the other threads do in between is part of how an operation changes the world.
pub record Host (W : Type 0) : Type 0 where
  pub is_cancelled : W → Bool × W
  pub read_input : ℕ → W → Result IoError (List ℕ) × W
  pub write_all : List ℕ → W → Result IoError Unit × W
  pub flush : W → Result IoError Unit × W
  pub sleep : ℕ → W → W
  pub mark_rx : W → W

pub record Context (W : Type 0) : Type 0 where
  pub world : W
  pub statistics : AtomicStatistics
  pub events : List WorkerEvent

abbrev pub Action : Type 0 → Type 0 → Type 0
Action W A = Context W → Option (Result Error A × Context W)

module _ {W : Type 0} where
  infixl 5 ◌>>=◌ ◌>>◌
  abbrev pub ◌>>=◌ : {A B : Type 0} → Action W A → (A → Action W B) → Action W B
  ◌>>=◌ m f c = elim (m c) [
    | none ↦ none
    | some (r, d) ↦ elim r [ ok a ↦ f a d | err e ↦ some (err e, d) ]
  ]

  abbrev pub ◌>>◌ : {B : Type 0} → Action W Unit → Action W B → Action W B
  m >> k = m >>= λ _. k

  abbrev pub pure : {A : Type 0} → A → Action W A
  pure a c = some (ok a, c)

  abbrev pub fail : {A : Type 0} → Error → Action W A
  fail e c = some (err e, c)

  abbrev pub send : WorkerEvent → Context W → Context W
  send event c = record c { events = c.events ++ event ∷ [] }

  -- An action of the world that cannot fail.
  abbrev pub change : (W → W) → Action W Unit
  change f c = some (ok tt, record c { world = f c.world })

  abbrev pub ask : {A : Type 0} → (W → A × W) → Action W A
  ask f c = let (a, w) = f c.world in some (ok a, record c { world = w })

  -- A fallible operation, its error given its category and text.
  abbrev pub attempt : {E A : Type 0} → (E → Error) → (W → Result E A × W) → Action W A
  attempt category f c =
      let (r, w) = f c.world in
      let d : Context W = record c { world = w } in
      elim r [ ok a ↦ some (ok a, d) | err e ↦ some (err (category e), d) ]

module _ {W : Type 0} (host : Host W) where
  -- `SharedOutput::write_all_and_flush`
  unfoldable pub write_all_and_flush : List ℕ → W → Result IoError Unit × W
  write_all_and_flush bytes w =
      let (r, w1) = host.write_all bytes w in elim r [ ok _ ↦ host.flush w1 | err e ↦ (err e, w1) ]

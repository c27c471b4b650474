-- ===== src/Cli/Console/Terminal.antt =====
-- The terminal after a command (src/bin/common/mod.rs): out of raw mode again.
use glasgow_tool.Prelude.{
  ◌≡◌, subst, ◌∙◌, ◌⊎◌, inl, inr, Bool, false, String, Option, none, some, arith, Option-cases,
}
use glasgow_tool.Error.{Error, Result, ok, err, Result-cases}
use glasgow_tool.Act.{Act, ◌>>=◌, call}
use glasgow_tool.Act.Keeps.{Keeps, Keeps-pure}
use glasgow_tool.Session.{SessionOptions, SessionReport}
use glasgow_tool.Cli.Console.{
  CommonOptions, Desk, install_ctrl_c, open_observer, leave_raw, with_raw_terminal, attended,
  run_console,
}

-- What crossterm documents: a request that succeeds switches the mode, one that fails does not, and
-- nothing else of the command does.
pub record TerminalLaws {W Port : Type 0} (desk : Desk W Port) : Type 0 where
  pub raw : W → Bool
  pub enable_err : (w w' : W) (e : String) → desk.enable_raw_mode w ≡ (err e, w') → raw w' ≡ raw w
  pub disable_ok : (w w' : W) → desk.disable_raw_mode w ≡ (ok tt, w') → raw w' ≡ false
  pub raw-set_handler : (w : W) → raw (desk.set_handler w).1 ≡ raw w
  pub raw-open_log : (path : String) (w : W) → raw (desk.open_log path w).1 ≡ raw w
  pub raw-surroundings :
      (port : Port) (options : SessionOptions) (w : W)
      → raw (desk.surroundings port options w).1 ≡ raw w
  pub raw-print_report : (report : SessionReport) (w : W) → raw (desk.print_report report w) ≡ raw w

module _ {W Port : Type 0} (desk : Desk W Port) (law : TerminalLaws desk) where
  abbrev pub IsCooked : W → Type 0
  IsCooked w = law.raw w ≡ false

  -- The system refused to leave the raw mode.
  abbrev pub IsStuck : W → Type 0
  IsStuck w' = (v : W) × (e : String) × (desk.disable_raw_mode v ≡ (err e, w'))

  abbrev pub IsRestored : W → Type 0
  IsRestored w = IsCooked w ⊎ IsStuck w

  restored : (w : W) → IsRestored (desk.disable_raw_mode w).1
  restored w = elim (Result-cases (desk.disable_raw_mode w).0) [
    | inl (e, p) ↦ inr (w, e, ground (arith, p))
    | inr (a, p) ↦ inl (law.disable_ok w _ (ground (arith, p)))
  ]

  leave_raw-IsRestored :
      {A : Type 0} (o : Option (Result Error A × W)) (r : Result Error A) (w' : W)
      → leave_raw desk o ≡ some (r, w')
      → IsRestored w'
  unfolding leave_raw
  leave_raw-IsRestored none r w' e = cc
  leave_raw-IsRestored (some (x, w)) r w' e =
      let same : (desk.disable_raw_mode w).1 ≡ w' = ground (arith, e) in
      subst IsRestored same (restored w)

  with_raw_terminal-IsRestored :
      {A : Type 0} (body : Act W A) (w w' : W) (r : Result Error A)
      → IsCooked w
      → with_raw_terminal desk body w ≡ some (r, w')
      → IsRestored w'
  unfolding with_raw_terminal
  with_raw_terminal-IsRestored body w w' r h e =
      let w1 = (desk.enable_raw_mode w).1 in
      elim (Result-cases (desk.enable_raw_mode w).0) [
        | inl (x, p) ↦
            let same : w1 ≡ w' = ground (arith, e, p) in
            inl (subst IsCooked same (law.enable_err w w1 x (ground (arith, p)) ∙ h))
        | inr (a, p) ↦ leave_raw-IsRestored (body w1) r w' (ground (arith, e, p))
      ]

  call-IsCooked :
      {E A : Type 0} (category : E → Error) (f : W → Result E A × W)
      → ((w : W) → law.raw (f w).1 ≡ law.raw w)
      → Keeps IsCooked (call category f)
  unfolding call
  call-IsCooked category f keeps = record {
    at = λ w h r w' e.
        let same : (f w).1 ≡ w' = elim (Result-cases (f w).0) [
          | inl (x, p) ↦ ground (arith, e, p)
          | inr (a, p) ↦ ground (arith, e, p)
        ] in
        subst IsCooked same (keeps w ∙ h);
  }

  install_ctrl_c-IsCooked : Keeps IsCooked (install_ctrl_c desk)
  unfolding install_ctrl_c
  install_ctrl_c-IsCooked = call-IsCooked _ _ law.raw-set_handler

  open_observer-IsCooked : (path : Option String) → Keeps IsCooked (open_observer desk path)
  unfolding open_observer
  open_observer-IsCooked none = Keeps-pure tt
  open_observer-IsCooked (some path) = call-IsCooked _ _ (law.raw-open_log path)

  -- The way a command ends.
  abbrev pub EndsRestored : {A : Type 0} → Act W A → Type 0
  EndsRestored {A} m =
      (w w' : W) (r : Result Error A) → IsCooked w → m w ≡ some (r, w') → IsRestored w'

  bind-EndsRestored :
      {A B : Type 0} (m : Act W A) (f : A → Act W B)
      → Keeps IsCooked m
      → ((a : A) → EndsRestored (f a))
      → EndsRestored (m >>= f)
  unfolding ◌>>=◌
  bind-EndsRestored m f keeps rest w w' r h e = elim (Option-cases (m w)) [
    | inl n ↦ absurd (ground (arith, e, n))
    | inr ((x, w1), n) ↦
        let cooked = keeps.at w h x w1 n in
        elim (Result-cases x) [
          | inl (error, p) ↦
              let same : w1 ≡ w' = ground (arith, e, n, p) in inl (subst IsCooked same cooked)
          | inr (a, p) ↦ rest a w1 w' r cooked (ground (arith, e, n, p))
        ]
  ]

  -- The command Console leaves the terminal out of raw mode, whatever the session comes to, a failure
  -- at any step included, unless the system refused to leave it.
  pub run_console-EndsRestored :
      (common : CommonOptions) (open_port : Act W Port)
      → Keeps IsCooked open_port
      → EndsRestored (run_console desk common open_port)
  unfolding run_console
  run_console-EndsRestored common open_port opens =
      bind-EndsRestored _ _ install_ctrl_c-IsCooked (λ _.
        bind-EndsRestored _ _ (open_observer-IsCooked common.event_log) (λ _.
          bind-EndsRestored _ _ opens
            (λ port w w' r h e. with_raw_terminal-IsRestored (attended desk port) w w' r h e)))

-- ===== src/Policy/Plan/Install.antt =====
-- `install` of daemon/src/policy/plan.rs: every step verified, or all that was tried rolled back.
use thisconnect.Prelude.{
  true, not, ◌≡◌, ◌↔◌, refl, ◌∙◌, ap, Option, none, some, List, [], ◌∷◌, ◌++◌, Result, ok, err,
  arith, append_assoc, if◌then◌else◌, Bool-cases, inl, inr,
}
use thisconnect.Prelude.Exec.{raise, continue}
use thisconnect.Prelude.Text.{before_newline, trim}
use thisconnect.Policy.Command.{CommandOutput, succeeded}
use thisconnect.Policy.Error.{PolicyError, command_failed}
use thisconnect.Policy.Plan.{
  Step, Plan, Check, Runner, evaluate, evaluate_if_some, install_step, install_from, install,
  rolled_back, abort,
}
use thisconnect.Policy.Plan.Teardown.{teardown_steps}

module _ {W : Type 0} (run : Runner W) where
  -- The read-back of a step, where it has one, confirmed it.
  abbrev pub Confirmed : Option Check → W → W → Type 0
  Confirmed none w w' = w ≡ w'
  Confirmed (some c) w w' = evaluate run c w ≡ (ok tt, w')

  -- The command of a step ran, exited with 0, and the read-back confirmed it.
  pub record Applied (s : Step) (w w' : W) : Type 0 where
    pub output : CommandOutput
    pub between : W
    pub ran : run s.apply w ≡ (ok output, between)
    pub exit_zero : succeeded output ≡ true
    pub confirmed : Confirmed s.after_apply between w'

  -- Every step was applied, in order.
  abbrev pub Installed : List Step → W → W → Type 0
  Installed [] w w' = w ≡ w'
  Installed (s ∷ rest) w w' = (w1 : W) × Applied s w w1 × Installed rest w1 w'

  Confirmed-evaluate :
      (c : Option Check) (w w' : W) → Confirmed c w w' → evaluate_if_some run c w ≡ (ok tt, w')
  unfolding evaluate_if_some
  Confirmed-evaluate none w w' h = ap (λ (v : W). (ok tt, v)) h
  Confirmed-evaluate (some c) w w' h = h

  evaluate-Confirmed :
      (c : Option Check) (w w' : W) → evaluate_if_some run c w ≡ (ok tt, w') → Confirmed c w w'
  unfolding evaluate_if_some
  evaluate-Confirmed none w w' h = ap (λ (x : Result PolicyError Unit × W). x.1) h
  evaluate-Confirmed (some c) w w' h = h

  Applied-install_step : (s : Step) (w w' : W) → Applied s w w' → install_step run s w ≡ (ok tt, w')
  unfolding install_step
  Applied-install_step s w w' a =
      rw (a.ran, a.exit_zero) (Confirmed-evaluate s.after_apply a.between w' a.confirmed)

  install_step-Applied : (s : Step) (w w' : W) → install_step run s w ≡ (ok tt, w') → Applied s w w'
  unfolding install_step
  install_step-Applied s w w' h = go (run s.apply w).0 (run s.apply w).1 refl h
    where
      go :
          (r : Result PolicyError CommandOutput) (m : W)
          → run s.apply w ≡ (r, m)
          → continue r
              (λ output.
                if not (succeeded output)
                then raise (command_failed s.kind s.apply (trim (before_newline output.stderr)))
                else evaluate_if_some run s.after_apply)
              m
            ≡ (ok tt, w')
          → Applied s w w'
      go (err e) m q k = cc
      go (ok output) m q k = elim (Bool-cases (succeeded output)) [
        | inl zero ↦ record {
          output = output;
          between = m;
          ran = q;
          exit_zero = zero;
          confirmed = evaluate-Confirmed s.after_apply m w' (rw zero at k);
        }
        | inr other ↦ cc (rw other at k)
      ]

  -- Where an installation of `steps`, with the steps `past` already applied, broke off: the steps
  -- `before` were applied, the step `at` ended in `cause`, and a teardown of all of them, the
  -- failing one included, had the result `rollback` and led to the last world.
  pub record AbortedAt (past steps : List Step) (w : W) (e : PolicyError) (w' : W) : Type 0 where
    pub before : List Step
    pub at : Step
    pub after : List Step
    pub reached : W
    pub failed : W
    pub cause : PolicyError
    pub rollback : Result PolicyError Unit
    pub splits : steps ≡ before ++ at ∷ after
    pub applied : Installed before w reached
    pub refused : install_step run at reached ≡ (err cause, failed)
    pub undone : teardown_steps run (past ++ (before ++ at ∷ [])) failed ≡ (rollback, w')
    pub error_is : e ≡ rolled_back cause rollback

  Installed-install_from :
      (past steps : List Step) (w w' : W)
      → Installed steps w w'
      → install_from run past steps w ≡ (ok tt, w')
  unfolding install_from
  Installed-install_from past [] w w' h = ap (λ (v : W). (ok tt, v)) h
  Installed-install_from past (s ∷ rest) w w' (w1, applied, more) =
      ap
        (λ (x : Result PolicyError Unit × W). elim x.0 [
          | ok _ ↦ install_from run (past ++ s ∷ []) rest x.1
          | err cause ↦ abort run (past ++ s ∷ []) cause x.1
        ])
        (Applied-install_step s w w1 applied)
      ∙ Installed-install_from (past ++ s ∷ []) rest w1 w' more

  install_from-Installed :
      (past steps : List Step) (w w' : W)
      → install_from run past steps w ≡ (ok tt, w')
      → Installed steps w w'
  unfolding install_from abort
  install_from-Installed past [] w w' h = ap (λ (x : Result PolicyError Unit × W). x.1) h
  install_from-Installed past (s ∷ rest) w w' h =
      go (install_step run s w).0 (install_step run s w).1 refl h
        (λ v. install_from-Installed (past ++ s ∷ []) rest v w')
    where
      go :
          (r : Result PolicyError Unit) (w1 : W)
          → install_step run s w ≡ (r, w1)
          → ◌≡◌ {A = Result PolicyError Unit × W}
              (elim r [
                | ok _ ↦ install_from run (past ++ s ∷ []) rest w1
                | err cause ↦ abort run (past ++ s ∷ []) cause w1
              ])
              (ok tt, w')
          → ((v : W) → install_from run (past ++ s ∷ []) rest v ≡ (ok tt, w') → Installed rest v w')
          → Installed (s ∷ rest) w w'
      go (ok _) w1 q k ih = (w1, install_step-Applied s w w1 q, ih w1 k)
      go (err cause) w1 q k ih = cc

  install_from-AbortedAt :
      (past steps : List Step) (w : W) (e : PolicyError) (w' : W)
      → install_from run past steps w ≡ (err e, w')
      → AbortedAt past steps w e w'
  unfolding install_from abort
  install_from-AbortedAt past [] w e w' h = cc
  install_from-AbortedAt past (s ∷ rest) w e w' h =
      go (install_step run s w).0 (install_step run s w).1 refl h
        (λ v. install_from-AbortedAt (past ++ s ∷ []) rest v e w')
    where
      go :
          (r : Result PolicyError Unit) (w1 : W)
          → install_step run s w ≡ (r, w1)
          → ◌≡◌ {A = Result PolicyError Unit × W}
              (elim r [
                | ok _ ↦ install_from run (past ++ s ∷ []) rest w1
                | err cause ↦ abort run (past ++ s ∷ []) cause w1
              ])
              (err e, w')
          → ((v : W)
              → install_from run (past ++ s ∷ []) rest v ≡ (err e, w')
              → AbortedAt (past ++ s ∷ []) rest v e w')
          → AbortedAt past (s ∷ rest) w e w'
      go (ok _) w1 q k ih =
          let later = ih w1 k in
          record {
            before = s ∷ later.before;
            at = later.at;
            after = later.after;
            reached = later.reached;
            failed = later.failed;
            cause = later.cause;
            rollback = later.rollback;
            splits = ap (◌∷◌ s) later.splits;
            applied = (w1, install_step-Applied s w w1 q, later.applied);
            refused = later.refused;
            undone = rw (← append_assoc past (s ∷ []) (later.before ++ later.at ∷ [])) later.undone;
            error_is = later.error_is;
          }
      go (err cause) w1 q k ih = record {
        before = [];
        at = s;
        after = rest;
        reached = w;
        failed = w1;
        cause = cause;
        rollback = (teardown_steps run (past ++ s ∷ []) w1).0;
        splits = refl;
        applied = refl;
        refused = q;
        undone =
            ap (λ (v : W). ((teardown_steps run (past ++ s ∷ []) w1).0, v))
              (ap (λ (x : Result PolicyError Unit × W). x.1) k);
        error_is = ground arith;
      }

  -- An installation returns `Ok` exactly when every step, in order, had its command run, exit
  -- with 0, and be confirmed by its read-back (where it has one).
  pub install-ok_iff :
      (p : Plan) (w w' : W) → (install run p w ≡ (ok tt, w')) ↔ Installed p.steps w w'
  unfolding install
  install-ok_iff p w w' =
      (install_from-Installed [] p.steps w w', Installed-install_from [] p.steps w w')

  -- An installation that returns an error applied some steps, met an error at the next one, ran
  -- nothing for the steps after it, and tore down every step that it had tried, the failing one
  -- included; its error is the cause, or `RollbackFailed` of both where the teardown failed too.
  pub install-fails :
      (p : Plan) (w : W) (e : PolicyError) (w' : W)
      → install run p w ≡ (err e, w')
      → AbortedAt [] p.steps w e w'
  unfolding install
  install-fails p w e w' = install_from-AbortedAt [] p.steps w e w'

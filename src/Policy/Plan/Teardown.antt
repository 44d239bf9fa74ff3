-- ===== src/Policy/Plan/Teardown.antt =====
-- `teardown` of daemon/src/policy/plan.rs: where it stops, and what it has then left alone.
use mathlib.Core.List.{reverse, reverse-append}
use thisconnect.Prelude.{◌≡◌, ◌↔◌, refl, sym, ◌∙◌, ap, List, [], ◌∷◌, ◌++◌, Result, ok, err}
use thisconnect.Prelude.Exec.{Exec, pure, continue, ◌>>◌}
use thisconnect.Policy.Error.{PolicyError}
use thisconnect.Policy.Plan.{Step, Runner, undo_step, undo_all, teardown}

module _ {W : Type 0} (run : Runner W) where
  undo_all-append :
      (xs ys : List Step) (w : W)
      → undo_all run (xs ++ ys) w ≡ (undo_all run xs >> undo_all run ys) w
  unfolding undo_all
  undo_all-append [] ys w = refl
  undo_all-append (s ∷ xs) ys w =
      go (undo_step run s w).0 (undo_step run s w).1 (undo_all-append xs ys)
    where
      go :
          (r : Result PolicyError Unit) (w' : W)
          → ((v : W) → undo_all run (xs ++ ys) v ≡ (undo_all run xs >> undo_all run ys) v)
          → continue r (λ _. undo_all run (xs ++ ys)) w'
            ≡ continue
                (continue r (λ _. undo_all run xs) w').0
                (λ _. undo_all run ys)
                (continue r (λ _. undo_all run xs) w').1
      go (ok _) w' ih = ih w'
      go (err e) w' ih = refl

  -- The teardown of `steps` in recursive form: the later steps first.
  abbrev pub teardown_steps : List Step → Exec W PolicyError Unit
  teardown_steps steps = teardown run (record { steps = steps })

  pub teardown-append :
      (before after : List Step) (w : W)
      → teardown_steps (before ++ after) w ≡ (teardown_steps after >> teardown_steps before) w
  unfolding teardown
  teardown-append before after w =
      rw reverse-append (undo_all-append (reverse after) (reverse before) w)

  pub teardown_one : (s : Step) (w : W) → teardown_steps (s ∷ []) w ≡ undo_step run s w
  unfolding teardown undo_all
  teardown_one s w = go (undo_step run s w).0 (undo_step run s w).1
    where
      go :
          (r : Result PolicyError Unit) (w' : W)
          → ◌≡◌ {A = Result PolicyError Unit × W} (continue r (λ _. pure tt) w') (r, w')
      go (ok _) w' = refl
      go (err e) w' = refl

  pub teardown-cons :
      (s : Step) (after : List Step) (w : W)
      → teardown_steps (s ∷ after) w ≡ (teardown_steps after >> undo_step run s) w
  teardown-cons s after w = teardown-append (s ∷ []) after w ∙ go (teardown_steps after w).0 _
    where
      go :
          (r : Result PolicyError Unit) (w' : W)
          → continue r (λ _. teardown_steps (s ∷ [])) w' ≡ continue r (λ _. undo_step run s) w'
      go (ok _) w' = teardown_one s w'
      go (err e) w' = refl

  -- `steps` splits where the teardown stopped: what stood after that step was removed and observed
  -- gone, that step's removal ended in `e`, and nothing was run for the steps before it.
  pub record StopsAt (steps : List Step) (w : W) (e : PolicyError) (w' : W) : Type 0 where
    pub before : List Step
    pub at : Step
    pub after : List Step
    pub between : W
    pub splits : steps ≡ before ++ at ∷ after
    pub removed : teardown_steps after w ≡ (ok tt, between)
    pub refused : undo_step run at between ≡ (err e, w')

  StopsAt-teardown :
      (steps : List Step) (w : W) (e : PolicyError) (w' : W)
      → StopsAt steps w e w'
      → teardown_steps steps w ≡ (err e, w')
  StopsAt-teardown steps w e w' h = rw h.splits (
      teardown-append h.before (h.at ∷ h.after) w
      ∙ ap (λ (x : Result PolicyError Unit × W). continue x.0 (λ _. teardown_steps h.before) x.1)
          (teardown-cons h.at h.after w
            ∙ ap (λ (x : Result PolicyError Unit × W). continue x.0 (λ _. undo_step run h.at) x.1)
                h.removed
            ∙ h.refused))

  teardown-StopsAt :
      (steps : List Step) (w : W) (e : PolicyError) (w' : W)
      → teardown_steps steps w ≡ (err e, w')
      → StopsAt steps w e w'
  unfolding teardown undo_all
  teardown-StopsAt [] w e w' h = cc
  teardown-StopsAt (s ∷ after) w e w' h =
      go (teardown_steps after w).0 (teardown_steps after w).1 refl
        (sym (teardown-cons s after w) ∙ h) (λ q. teardown-StopsAt after w e w' q)
    where
      go :
          (r : Result PolicyError Unit) (w1 : W)
          → teardown_steps after w ≡ (r, w1)
          → continue r (λ _. undo_step run s) w1 ≡ (err e, w')
          → (teardown_steps after w ≡ (err e, w') → StopsAt after w e w')
          → StopsAt (s ∷ after) w e w'
      go (ok _) w1 q k ih = record {
        before = [];
        at = s;
        after = after;
        between = w1;
        splits = refl;
        removed = q;
        refused = k;
      }
      go (err e1) w1 q k ih =
          let later = ih (q ∙ k) in
          record {
            before = s ∷ later.before;
            at = later.at;
            after = later.after;
            between = later.between;
            splits = ap (◌∷◌ s) later.splits;
            removed = later.removed;
            refused = later.refused;
          }

  -- A teardown ends in an error exactly when some step's removal, or the check that it is gone,
  -- ends in that error in the world in which all later steps were removed and observed gone; it
  -- leaves that world, so that no command is run for an earlier step (the floor stays while the
  -- rule stands).
  pub teardown-fails_iff :
      (steps : List Step) (w : W) (e : PolicyError) (w' : W)
      → (teardown run (record { steps = steps }) w ≡ (err e, w')) ↔ StopsAt steps w e w'
  teardown-fails_iff steps w e w' = (teardown-StopsAt steps w e w', StopsAt-teardown steps w e w')

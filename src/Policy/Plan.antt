-- ===== src/Policy/Plan.antt =====
-- daemon/src/policy/plan.rs: ordered installation and teardown of tunnel policy. The runner is the
-- trait `CommandRunner`: any action on a world `W` that returns an output or an error.
pub mod Order
pub mod Install
pub mod Teardown
pub mod Reassert
mod Examples
use mathlib.Core.List.{reverse}
use thisconnect.Prelude.{
  ℕ, Bool, true, false, not, ◌&&◌, ◌||◌, ◌≡◌, Option, none, some, List, [], ◌∷◌, ◌++◌, Result, ok,
  err, all, keep, is_empty, leb, ltb, is_ok, if◌then◌else◌, ◌>>=◌ as ◌>>=ᴿ◌,
}
use thisconnect.Prelude.Exec.{Exec, pure, raise, ◌>>=◌, ◌>>◌}
use thisconnect.Prelude.Text.{Text, contains, before_newline, trim}
use thisconnect.Policy.Command.{CommandOutput, succeeded}
use thisconnect.Policy.Error.{
  StepKind, backstop, floor, rule, tunnel_route, Command, Detail, unreadable, missing,
  still_installed, PolicyError, ordering, command_failed, verification, rollback_failed,
}

-- `Family` of types.rs
pub data Family : Type 0 where
  v4 v6 : Family

pub record Check : Type 0 where
  pub probe : Command
  pub required : List Text
  pub forbidden : List Text
  pub probe_failure_proves_absence : Bool

abbrev pub present : Command → List Text → Check
present probe required = record {
  probe = probe;
  required = required;
  forbidden = [];
  probe_failure_proves_absence = false;
}

abbrev pub absent : Command → List Text → Check
absent probe forbidden = record {
  probe = probe;
  required = [];
  forbidden = forbidden;
  probe_failure_proves_absence = false;
}

abbrev pub absent_or_probe_fails : Command → List Text → Check
absent_or_probe_fails probe forbidden = record (absent probe forbidden) {
  probe_failure_proves_absence = true;
}

pub record Step : Type 0 where
  pub family : Family
  pub kind : StepKind
  pub apply : Command
  pub undo : Command
  pub after_apply : Option Check
  pub after_undo : Option Check

pub record Plan : Type 0 where
  pub steps : List Step

-- The order that is derived for `StepKind`.
abbrev pub rank : StepKind → ℕ
rank backstop = 0
rank floor = 1
rank rule = 2
rank tunnel_route = 3

abbrev pub same_family : Family → Family → Bool
same_family v4 v4 = true
same_family v6 v6 = true
same_family _ _ = false

abbrev pub kinds : List Step → List StepKind
kinds [] = []
kinds (s ∷ rest) = s.kind ∷ kinds rest

-- `ranks.windows(2).any(|pair| pair[0] >= pair[1])`
unfoldable pub has_descent : List StepKind → Bool
has_descent [] = false
has_descent (a ∷ []) = false
has_descent (a ∷ b ∷ rest) = leb (rank b) (rank a) || has_descent (b ∷ rest)

-- one turn of the loop over the two families
unfoldable pub out_of_order : Family → List Step → Bool
unfolding has_descent
out_of_order family steps = has_descent (kinds (keep (λ s. same_family s.family family) steps))

-- `Plan::new`
unfoldable pub new : List Step → Result PolicyError Plan
unfolding out_of_order
new steps =
    if out_of_order v4 steps
    then err ordering
    else if out_of_order v6 steps
    then err ordering
    else ok (record { steps = steps })

-- `required.iter().find(..)`, and the same with the test turned round for `forbidden`
unfoldable pub find_missing : List Text → Text → Option Text
find_missing [] stdout = none
find_missing (needle ∷ rest) stdout =
    let later = find_missing rest stdout in
    if not (contains stdout needle) then some needle else later

unfoldable pub find_present : List Text → Text → Option Text
find_present [] stdout = none
find_present (needle ∷ rest) stdout =
    let later = find_present rest stdout in if contains stdout needle then some needle else later

-- What the output of a probe says, the failures in the order in which they are looked for.
unfoldable pub judge_found : Check → Option Text → Option Text → Result PolicyError Unit
judge_found c (some needle) found = err (verification c.probe (missing needle))
judge_found c none (some needle) = err (verification c.probe (still_installed needle))
judge_found c none none = ok tt

unfoldable pub judge : Check → CommandOutput → Result PolicyError Unit
unfolding judge_found succeeded find_missing find_present
judge c output =
    if not (succeeded output)
    then (if c.probe_failure_proves_absence && is_empty c.required
        then ok tt
        else err (verification c.probe (unreadable output.status)))
    else judge_found c (find_missing c.required output.stdout)
        (find_present c.forbidden output.stdout)

abbrev pub Runner : Type 0 → Type 0
Runner W = Command → Exec W PolicyError CommandOutput

abbrev pub lift {ℓ} : {W E A : Type ℓ} → Result E A → Exec W E A
lift r w = (r, w)

-- the answer of `install` to the error of a step, from the result of the rollback
unfoldable pub rolled_back : PolicyError → Result PolicyError Unit → PolicyError
rolled_back cause (ok _) = cause
rolled_back cause (err rollback) = rollback_failed cause rollback

module _ {W : Type 0} (run : Runner W) where
  -- `Check::evaluate`
  unfoldable pub evaluate : Check → Exec W PolicyError Unit
  evaluate c = do output ← run c.probe; lift (judge c output)

  unfoldable pub evaluate_if_some : Option Check → Exec W PolicyError Unit
  evaluate_if_some none = pure tt
  evaluate_if_some (some c) = evaluate c

  unfoldable pub install_step : Step → Exec W PolicyError Unit
  unfolding evaluate_if_some
  install_step s = do
    output ← run s.apply
    if not (succeeded output)
        then raise (command_failed s.kind s.apply (trim (before_newline output.stderr)))
        else evaluate_if_some s.after_apply

  -- one turn of the loop in `teardown`
  unfoldable pub undo_step : Step → Exec W PolicyError Unit
  unfolding evaluate_if_some
  undo_step s = do run s.undo; evaluate_if_some s.after_undo

  -- the loop in `teardown`, over the steps in the order in which they are undone
  unfoldable pub undo_all : List Step → Exec W PolicyError Unit
  undo_all [] = pure tt
  undo_all (s ∷ rest) = do undo_step s; undo_all rest

  unfoldable pub teardown : Plan → Exec W PolicyError Unit
  teardown p = undo_all (reverse p.steps)

  -- the failing turn of the loop in `install`: tear down `plan.steps()[..=index]`
  unfoldable pub abort : List Step → PolicyError → Exec W PolicyError Unit
  unfolding rolled_back
  abort installed cause w =
      let (r, w') = teardown (record { steps = installed }) w in (err (rolled_back cause r), w')

  -- the loop in `install`, with the steps that it is past
  unfoldable pub install_from : List Step → List Step → Exec W PolicyError Unit
  install_from before [] w = (ok tt, w)
  install_from before (s ∷ rest) w =
      let (r, w') = install_step s w in
      elim r [
        | ok _ ↦ install_from (before ++ s ∷ []) rest w'
        | err cause ↦ abort (before ++ s ∷ []) cause w'
      ]

  unfoldable pub install : Plan → Exec W PolicyError Unit
  install p = install_from [] p.steps

pub record Reassertion : Type 0 where
  pub restored : List StepKind
  pub failed : List StepKind

abbrev pub is_quiet : Reassertion → Bool
is_quiet r = is_empty r.restored && is_empty r.failed

abbrev pub push_restored : StepKind → Reassertion → Reassertion
push_restored k r = record r { restored = r.restored ++ k ∷ [] }

abbrev pub push_failed : StepKind → Reassertion → Reassertion
push_failed k r = record r { failed = r.failed ++ k ∷ [] }

module _ {W : Type 0} (run : Runner W) where
  -- `step.after_apply.as_ref().is_some_and(|check| check.evaluate(runner).is_ok())`
  unfoldable pub still_standing : Option Check → W → Bool × W
  still_standing none w = (false, w)
  still_standing (some c) w = let (r, w') = evaluate run c w in (is_ok r, w')

  abbrev pub restore : Step → Reassertion → W → Reassertion × W
  restore s outcome w =
      let (r, w') = install_step run s w in
      (if is_ok r then push_restored s.kind outcome else push_failed s.kind outcome, w')

  -- one turn of the loop in `reassert`
  unfoldable pub reassert_step : Step → Reassertion → W → Reassertion × W
  unfolding still_standing
  reassert_step s outcome w =
      let (standing, w') = still_standing s.after_apply w in
      if standing then (outcome, w') else restore s outcome w'

  unfoldable pub reassert_from : List Step → Reassertion → W → Reassertion × W
  reassert_from [] outcome w = (outcome, w)
  reassert_from (s ∷ rest) outcome w =
      let (outcome', w') = reassert_step s outcome w in reassert_from rest outcome' w'

  unfoldable pub reassert : Plan → W → Reassertion × W
  reassert p = reassert_from p.steps (record { restored = []; failed = [] })

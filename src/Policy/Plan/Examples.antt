-- ===== src/Policy/Plan/Examples.antt =====
-- A small kernel as a runner, and the plan that the Linux backend would install on it.
use thisconnect.Prelude.{String, ◌≡◌, refl, some, List, [], ◌∷◌, ◌++◌, if◌then◌else◌, ok}
use thisconnect.Prelude.Text.{
  starts_with, trim, before_newline, Text, codes, text_eq, is_ascii_alphanumeric, byte_len,
  contains,
}
use thisconnect.Policy.Command.{
  Arg, flag, value, CommandOutput, validate_value, build, render_args, render_arg, Renders,
  build-iff-Renders,
}
use thisconnect.Policy.Error.{
  StepKind, floor, rule, tunnel_route, Command, PolicyError, command_failed, verification,
  still_installed,
}
use thisconnect.Policy.Plan.{
  Step, Plan, v4, Runner, present, absent, new, evaluate, install_step, undo_step, install,
  teardown, reassert, judge, install_from, abort, undo_all, reassert_from, reassert_step,
}
use thisconnect.Policy.Plan.Order.{Ascends, new-iff-Ascends}
use thisconnect.Policy.Plan.Install.{Installed, AbortedAt, install-ok_iff, install-fails}
use thisconnect.Policy.Plan.Teardown.{StopsAt, teardown-fails_iff}
use thisconnect.Policy.Plan.Reassert.{AllStand, reassert-quiet_iff}

-- The world: the names of what is installed, latest first.
abbrev World : Type 0
World = List Text

abbrev command : String → String → Command
command program name = record { program = codes program; args = codes name ∷ [] }

abbrev without : Text → World → World
without name [] = []
without name (x ∷ xs) = let rest = without name xs in if text_eq x name then rest else x ∷ rest

abbrev join : World → Text
join [] = []
join (x ∷ xs) = x ++ join xs

abbrev output_of : Text → CommandOutput
output_of text = record { status = some 0; stdout = text; stderr = [] }

abbrev first_arg : List Text → Text
first_arg [] = []
first_arg (x ∷ xs) = x

-- `add` installs its argument, `del` removes it, `stuck` fails, and any other program lists all.
-- The line names what a run of a plan computes through.
kernel : Runner World
unfolding text_eq install install_from install_step abort teardown undo_all undo_step evaluate judge
    contains starts_with reassert reassert_from reassert_step trim before_newline
kernel c w =
    let name = first_arg c.args in
    if text_eq c.program (codes "add")
    then (ok (output_of []), name ∷ w)
    else if text_eq c.program (codes "del")
    then (ok (output_of []), without name w)
    else if text_eq c.program (codes "stuck")
    then (ok (record { status = some 2; stdout = []; stderr = codes "busy" }), w)
    else (ok (output_of (join w)), w)

abbrev step_of : StepKind → String → Step
step_of k name = record {
  family = v4;
  kind = k;
  apply = command "add" name;
  undo = command "del" name;
  after_apply = some (present (command "show" "") (codes name ∷ []));
  after_undo = some (absent (command "show" "") (codes name ∷ []));
}

abbrev linux : List Step
linux = step_of floor "F" ∷ step_of rule "R" ∷ step_of tunnel_route "T" ∷ []

abbrev linux_plan : Plan
linux_plan = record { steps = linux }

-- The rule cannot be removed.
abbrev stuck_rule : Step
stuck_rule = record (step_of rule "R") { undo = command "stuck" "R" }

abbrev stuck_plan : Plan
stuck_plan = record { steps = step_of floor "F" ∷ stuck_rule ∷ step_of tunnel_route "T" ∷ [] }

abbrev installed_world : World
installed_world = codes "T" ∷ codes "R" ∷ codes "F" ∷ []

-- The tunnel route cannot be added.
abbrev no_route : Plan
no_route = record {
  steps =
      step_of floor "F"
      ∷ record (step_of tunnel_route "T") { apply = command "stuck" "T" }
      ∷ step_of rule "R"
      ∷ [];
}

install_linux : install kernel linux_plan [] ≡ (ok tt, installed_world)
unfolding kernel
install_linux = refl

new-iff-Ascends_example : Ascends linux
new-iff-Ascends_example = ((new-iff-Ascends linux linux_plan).0 (unfold new in refl)).1

install-ok_iff_example : Installed kernel linux [] installed_world
install-ok_iff_example = (install-ok_iff kernel linux_plan [] installed_world).0 install_linux

abbrev busy : PolicyError
busy = command_failed tunnel_route (command "stuck" "T") (codes "busy")

install-fails_example : AbortedAt kernel [] no_route.steps [] busy []
install-fails_example = install-fails kernel no_route [] busy [] (unfold kernel in refl)

-- The floor is still there, since the rule could not be observed gone.
teardown-fails_iff_example :
    StopsAt kernel stuck_plan.steps installed_world
      (verification (command "show" "") (still_installed (codes "R")))
      (codes "R" ∷ codes "F" ∷ [])
teardown-fails_iff_example =
    (teardown-fails_iff kernel stuck_plan.steps installed_world
        (verification (command "show" "") (still_installed (codes "R")))
        (codes "R" ∷ codes "F" ∷ [])).0
      (unfold kernel in refl)

reassert-quiet_iff_example : AllStand kernel linux installed_world installed_world
reassert-quiet_iff_example =
    (reassert-quiet_iff kernel linux_plan installed_world installed_world
        (record { restored = []; failed = [] }) (unfold kernel in refl)).0
      refl

reassert_restores : reassert kernel linux_plan (codes "R" ∷ []) ≡ (
  record { restored = floor ∷ tunnel_route ∷ []; failed = [] },
  codes "T" ∷ codes "F" ∷ codes "R" ∷ [],
)
unfolding kernel
reassert_restores = refl

abbrev table_args : List Arg
table_args = flag (codes "table") ∷ value (codes "51820") ∷ []

build-iff-Renders_example :
    (codes "ip" ≡ codes "ip") × Renders table_args (codes "table" ∷ codes "51820" ∷ [])
build-iff-Renders_example =
    (build-iff-Renders (codes "ip") table_args
        (record { program = codes "ip"; args = codes "table" ∷ codes "51820" ∷ [] })).0
      (unfold build render_args render_arg validate_value byte_len starts_with
          is_ascii_alphanumeric in
        refl)

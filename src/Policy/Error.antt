-- ===== src/Policy/Error.antt =====
-- `PolicyError` of daemon/src/policy/mod.rs. A message that the source formats is kept as the
-- values that it shows.
use thisconnect.Prelude.{ℕ, List, Option}
use thisconnect.Prelude.Text.{Text}

-- `StepKind` of plan.rs: the rank within one address family.
pub data StepKind : Type 0 where
  backstop floor rule tunnel_route : StepKind

-- `Command` of command.rs
pub record Command : Type 0 where
  pub program : Text
  pub args : List Text

-- Why `Check::evaluate` did not confirm.
pub data Detail : Type 0 where
  unreadable : Option ℕ → Detail
  missing : Text → Detail
  still_installed : Text → Detail

pub data PolicyError : Type 0 where
  invalid_device : Text → PolicyError
  invalid_address : Text → PolicyError
  invalid_mtu : ℕ → PolicyError
  unsafe_argument : Text → PolicyError
  ordering : PolicyError
  spawn : Command → PolicyError
  command_failed : StepKind → Command → Text → PolicyError
  verification : Command → Detail → PolicyError
  rollback_failed : PolicyError → PolicyError → PolicyError
  residue_remains : ℕ → PolicyError
  unsupported_platform : PolicyError

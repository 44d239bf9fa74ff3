-- ===== src/Session/Orchestrator.antt =====
-- daemon/src/session/mod.rs and daemon/src/session/connect.rs: the calls of the session manager and
-- its supervisor, as tasks that interleave between their awaits. What a session holds (openvpn, its
-- management channel, its routes) is a number that its start draws.
pub mod Turn
mod Tally
mod Balanced
pub mod Owned
pub mod Alone
pub mod Ended
pub mod Races
mod Examples
use thisconnect.Prelude.{ℕ, Option, none, some, List, [], ◌∷◌, ◌++◌, ◌==◌, if◌then◌else◌}
use thisconnect.Prelude.Text.{codes, Text}
use thisconnect.Session.State.{
  SessionState, connecting, authenticating, disconnecting, SessionError, StateCell, new,
}

-- `StatusSnapshot`, with the profile, the time and the tunnel of a session as its number.
pub record StatusSnapshot : Type 0 where
  pub tunnel : Option ℕ
  pub bytes_in : ℕ
  pub bytes_out : ℕ
  pub last_error : Option Text

abbrev pub no_status : StatusSnapshot
no_status = record { tunnel = none; bytes_in = 0; bytes_out = 0; last_error = none }

-- `{:?}` of a state
abbrev debug_name : SessionState → Text
debug_name SessionState.disconnected = codes "Disconnected"
debug_name SessionState.connecting = codes "Connecting"
debug_name SessionState.authenticating = codes "Authenticating"
debug_name SessionState.connected = codes "Connected"
debug_name SessionState.disconnecting = codes "Disconnecting"
debug_name SessionState.failed = codes "Failed"

-- `SessionError::user_facing`, of the errors of the cell
unfoldable pub user_facing : SessionError → Text
user_facing SessionError.already_connected = codes "a connection is already up"
user_facing SessionError.not_connected = codes "nothing is connected"
user_facing SessionError.busy = codes "another connect or disconnect is already in flight"
user_facing (SessionError.illegal_transition from to) =
    codes "cannot move from " ++ debug_name from ++ codes " to " ++ debug_name to

-- What ends an attempt: `Cancelled`, or another error with its text.
pub data Failure : Type 0 where
  cancelled : Text → Failure
  other : Text → Failure

abbrev pub detail_of : Failure → Text
detail_of (cancelled t) = t
detail_of (other t) = t

-- `Inner`. `up` are the sessions whose resources were started and not torn down, and `dropped`
-- those that a later one replaced in the slot.
pub record Inner (W Q : Type 0) : Type 0 where
  pub cell : StateCell W Q
  pub active : Option ℕ
  pub status : StatusSnapshot
  pub up : List ℕ
  pub dropped : List ℕ
  pub next : ℕ

-- Where a call stands between two awaits, with the session whose resources it holds.
pub data Task : Type 0 where
  -- `connect`: in `start_openvpn`, in `bring_up` before its transition and
  -- behind it, before the commit, before the status is set
  -- and before the slot is, in the teardown after an error, and before `record_failure`
  starting : Task
  bringing_up awaiting established committed storing : ℕ → Task
  abandoning : ℕ → Failure → Task
  failing : Failure → Task
  -- `disconnect`: before the slot is taken, in the teardown, and before `finish_disconnect`
  closing : Task
  tearing_down : ℕ → Task
  finishing : Task
  -- `supervise`, and `handle_loss`: before the slot is taken, in the teardown, and behind it
  supervising : Task
  losing burying_all : Text → Task
  burying : ℕ → Text → Task

-- How what a task waits for turns out.
pub data Outcome : Type 0 where
  done : Outcome
  fails : Failure → Outcome

-- Removes one session from those that are up: what `teardown` does.
unfoldable pub remove : ℕ → List ℕ → List ℕ
remove r [] = []
remove r (x ∷ xs) = let rest = remove r xs in if x == r then xs else x ∷ rest

abbrev pub slot : Option ℕ → List ℕ
slot none = []
slot (some r) = r ∷ []

-- `SessionManager::new`
unfoldable pub new_inner : {W Q : Type 0} → W → Q → Inner W Q
unfolding new
new_inner channel events = record {
  cell = new channel events;
  active = none;
  status = no_status;
  up = [];
  dropped = [];
  next = 0;
}

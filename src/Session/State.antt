-- ===== src/Session/State.antt =====
-- daemon/src/session/state.rs: the connection state machine and the cell that owns it. The watch
-- channel and the bounded event queue are tokio's: any worlds with a `send` and a `try_send`.
pub mod Steps
pub mod Transitions
pub mod History
mod Examples
use thisconnect.Prelude.{Bool, true, false, not, ◌&&◌, Option, none, if◌then◌else◌, ok, err}
use thisconnect.Prelude.Text.{Text}
use thisconnect.Prelude.Exec.{Exec}

pub data SessionState : Type 0 where
  disconnected connecting authenticating connected disconnecting failed : SessionState

-- `ConnectionState` of shared/src/ipc.rs
pub data ConnectionState : Type 0 where
  disconnected connecting authenticating connected reconnecting disconnecting failed :
      ConnectionState

-- The errors of session/error.rs that the cell returns.
pub data SessionError : Type 0 where
  already_connected not_connected busy : SessionError
  illegal_transition : SessionState → SessionState → SessionError

-- `DaemonMessage::Event { event: Event::State { .. } }`
pub record StateEvent : Type 0 where
  pub state : ConnectionState
  pub detail : Option Text

unfoldable pub to_ipc : SessionState → ConnectionState
to_ipc SessionState.disconnected = ConnectionState.disconnected
to_ipc SessionState.connecting = ConnectionState.connecting
to_ipc SessionState.authenticating = ConnectionState.authenticating
to_ipc SessionState.connected = ConnectionState.connected
to_ipc SessionState.disconnecting = ConnectionState.disconnecting
to_ipc SessionState.failed = ConnectionState.failed

unfoldable pub is_busy : SessionState → Bool
is_busy SessionState.connecting = true
is_busy SessionState.authenticating = true
is_busy SessionState.connected = true
is_busy SessionState.disconnecting = true
is_busy _ = false

-- the derived `==`
unfoldable pub state_eq : SessionState → SessionState → Bool
state_eq SessionState.disconnected SessionState.disconnected = true
state_eq SessionState.connecting SessionState.connecting = true
state_eq SessionState.authenticating SessionState.authenticating = true
state_eq SessionState.connected SessionState.connected = true
state_eq SessionState.disconnecting SessionState.disconnecting = true
state_eq SessionState.failed SessionState.failed = true
state_eq _ _ = false

unfoldable pub permits : SessionState → SessionState → Bool
permits _ SessionState.failed = true
permits SessionState.disconnected SessionState.connecting = true
permits SessionState.failed SessionState.connecting = true
permits SessionState.connecting SessionState.authenticating = true
permits SessionState.connecting SessionState.connected = true
permits SessionState.connecting SessionState.disconnecting = true
permits SessionState.authenticating SessionState.connected = true
permits SessionState.authenticating SessionState.disconnecting = true
permits SessionState.connected SessionState.disconnecting = true
permits SessionState.disconnecting SessionState.disconnected = true
permits SessionState.failed SessionState.disconnected = true
permits _ _ = false

pub record StateCell (W Q : Type 0) : Type 0 where
  pub current : SessionState
  pub watch : W
  pub events : Q

module _ {W Q : Type 0} (send : SessionState → W → W) (try_send : StateEvent → Q → Bool × Q) where
  abbrev pub Cell : Type 0
  Cell = StateCell W Q

  -- `EventSink::emit`: an event that finds no room is dropped
  unfoldable pub emit : StateEvent → Q → Q
  emit e q = (try_send e q).1

  unfoldable pub commit : SessionState → Option Text → Cell → Cell
  unfolding emit
  commit next detail c = record {
    current = next;
    watch = send next c.watch;
    events = emit (record { state = to_ipc next; detail = detail }) c.events;
  }

  unfoldable pub begin_connect : Exec Cell SessionError Unit
  unfolding is_busy state_eq
  begin_connect c =
      if state_eq c.current SessionState.connected
      then (err already_connected, c)
      else if is_busy c.current
      then (err busy, c)
      else (ok tt, commit SessionState.connecting none c)

  unfoldable pub begin_disconnect : Exec Cell SessionError SessionState
  unfolding is_busy state_eq
  begin_disconnect c =
      if not (is_busy c.current) && not (state_eq c.current SessionState.failed)
      then (err not_connected, c)
      else if state_eq c.current SessionState.disconnecting
      then (err busy, c)
      else (ok c.current, commit SessionState.disconnecting none c)

  unfoldable pub advance_with : SessionState → Option Text → Exec Cell SessionError Unit
  unfolding state_eq permits
  advance_with next detail c =
      if state_eq c.current next
      then (ok tt, c)
      else if not (permits c.current next)
      then (err (illegal_transition c.current next), c)
      else (ok tt, commit next detail c)

  unfoldable pub advance : SessionState → Exec Cell SessionError Unit
  unfolding advance_with
  advance next = advance_with next none

  unfoldable pub force : SessionState → Option Text → Cell → Cell
  unfolding state_eq
  force next detail c = if state_eq c.current next then c else commit next detail c

-- `StateCell::new`
unfoldable pub new : {W Q : Type 0} → W → Q → StateCell W Q
new channel events = record {
  current = SessionState.disconnected;
  watch = channel;
  events = events;
}

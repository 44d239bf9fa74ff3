-- ===== src/Session/State/Examples.antt =====
-- A session that is refused, connects, fails and is cleared.
use thisconnect.Prelude.{◌≡◌, refl, none, List, [], ◌∷◌}
use thisconnect.Session.State.{
  SessionState, disconnected, connecting, authenticating, connected, disconnecting, failed,
  StateEvent, to_ipc, new, begin_connect, advance_with, commit, begin_disconnect, force,
  ConnectionState,
}
use thisconnect.Session.State.Steps.{Op, connect, disconnect, advance_to, force_to}
use thisconnect.Session.State.History.{apply_ops, Run, published-Run}

-- A watch channel that keeps the last value.
abbrev send_last : SessionState → SessionState → SessionState
send_last s last = s

abbrev story : List Op
story =
    advance_to connected none
    ∷ connect
    ∷ connect
    ∷ advance_to authenticating none
    ∷ advance_to connected none
    ∷ force_to failed none
    ∷ disconnect
    ∷ force_to disconnecting none
    ∷ force_to disconnected none
    ∷ []

abbrev shown : List StateEvent → List ConnectionState
shown [] = []
shown (e ∷ es) = e.state ∷ shown es

story_is_shown :
    shown (apply_ops send_last story (new disconnected [])).events
    ≡ to_ipc connecting
      ∷ to_ipc authenticating
      ∷ to_ipc connected
      ∷ to_ipc failed
      ∷ to_ipc disconnecting
      ∷ to_ipc disconnected
      ∷ []
unfolding apply_ops begin_connect begin_disconnect advance_with force commit new to_ipc
story_is_shown = refl

published-Run_example :
    Run disconnected story
      (apply_ops send_last story (new disconnected [])).events
      (apply_ops send_last story (new disconnected [])).current
published-Run_example = published-Run send_last story disconnected

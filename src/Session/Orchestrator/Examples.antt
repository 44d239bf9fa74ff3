-- ===== src/Session/Orchestrator/Examples.antt =====
-- A session that is brought up and ended, and two orders of steps in which what is left differs.
use thisconnect.Prelude.{◌≡◌, refl, ap, subst, Bool, true, false, none, some, List, [], ◌∷◌, ◌++◌}
use thisconnect.Prelude.Text.{codes}
use thisconnect.Session.State.{
  commit, begin_connect, state_eq, is_busy, SessionState, StateEvent, new, StateCell,
}
use thisconnect.Session.Orchestrator.{
  remove, Inner, new_inner, no_status, Task, starting, awaiting, storing, supervising, done, fails,
  other,
}
use thisconnect.Session.Orchestrator.Turn.{
  settle_connect, turn, connect, disconnect, Reached, fresh, connects, turns,
}
use thisconnect.Session.Orchestrator.Owned.{IsOwned, Reached-IsOwned}
use thisconnect.Session.Orchestrator.Alone.{run, IsOver, cancelled-IsOver}
use thisconnect.Session.Orchestrator.Ended.{disconnected_from, disconnect-IsOver}
use thisconnect.Session.Orchestrator.Races.{
  IsUp, connect-IsUp, IsStranded, overtaken-IsStranded, after_disconnect, IsLost, loss-IsLost,
}

abbrev Nothing : Type 0
Nothing = Unit

abbrev send : SessionState → Nothing → Nothing
send s w = tt

abbrev try_send : StateEvent → Nothing → Bool × Nothing
try_send e q = (true, tt)

abbrev cell_at : SessionState → StateCell Nothing Nothing
cell_at s = record { current = s; watch = tt; events = tt }

-- A manager with the first session stored.
abbrev stored : Inner Nothing Nothing
stored = record {
  cell = cell_at SessionState.connected;
  active = some 0;
  status = record no_status { tunnel = some 0 };
  up = 0 ∷ [];
  dropped = [];
  next = 1;
}

-- A manager whose attempt in flight was asked to end.
abbrev overtaken : Inner Nothing Nothing
overtaken = record {
  cell = cell_at SessionState.disconnecting;
  active = none;
  status = no_status;
  up = 0 ∷ [];
  dropped = [];
  next = 1;
}

cancelled-IsOver_example :
    IsOver send try_send (remove 0 (0 ∷ [])) (run send try_send 4 done (awaiting 0 ∷ []) overtaken)
cancelled-IsOver_example = cancelled-IsOver send try_send done (awaiting 0) overtaken tt refl

disconnect-IsOver_example :
    IsOver send try_send (remove 0 (0 ∷ [])) (disconnected_from send try_send done stored)
    × ((disconnected_from send try_send done stored).0.active ≡ none)
    × IsOver send try_send (remove 0 (0 ∷ [])) (
        run send try_send 3
          (fails (other (codes "the management channel closed")))
          (supervising ∷ [])
          ((disconnected_from send try_send done stored).0))
disconnect-IsOver_example =
    disconnect-IsOver send try_send done (other (codes "the management channel closed")) 0 stored
      refl refl

idle : is_busy ((new_inner {W = Nothing} {Q = Nothing} tt tt).cell.current) ≡ false
unfolding is_busy new_inner new
idle = refl

abbrev begun : Inner Nothing Nothing
begun = (connect send try_send (new_inner tt tt)).0

begins : (connect send try_send (new_inner tt tt)).1 ≡ starting ∷ []
unfolding connect new_inner settle_connect begin_connect new state_eq is_busy
begins = refl

begun-Reached : Reached send try_send begun (starting ∷ [])
begun-Reached =
    subst (Reached send try_send begun) (ap (λ (ts : List Task). ts ++ []) begins)
      (connects (new_inner tt tt) [] (fresh tt tt))

Reached-IsOwned_example :
    IsOwned
      ((turn send try_send done starting begun).0)
      ((turn send try_send done starting begun).1 ++ [])
Reached-IsOwned_example =
    Reached-IsOwned send try_send ((turn send try_send done starting begun).0)
      ((turn send try_send done starting begun).1 ++ [])
      (turns done starting [] [] begun begun-Reached)

-- The session is committed and not yet stored when a disconnect runs to its end.
abbrev unstored : Inner Nothing Nothing
unstored = record stored { active = none }

overtaken-IsStranded_example :
    IsStranded send try_send 0 unstored
      (run send try_send 1 done (storing 0 ∷ []) (after_disconnect send try_send done unstored)).0
overtaken-IsStranded_example = overtaken-IsStranded send try_send done 0 unstored refl refl

-- The supervisor of a session that the user has ended sees its management channel close, and
-- reports a failure; were another session stored by then, it would be torn down.
abbrev ended : Inner Nothing Nothing
ended =
    (run send try_send 3 done ((disconnect send try_send stored).1)
      ((disconnect send try_send stored).0)).0

failure_reported :
    (run send try_send 3
      (fails (other (codes "the management channel closed")))
      (supervising ∷ [])
      ended).0.cell.current
    ≡ SessionState.failed
unfolding disconnect turn commit remove
failure_reported = refl

abbrev next_stored : Inner Nothing Nothing
next_stored = record stored { active = some 1; up = 1 ∷ []; next = 2 }

loss-IsLost_example : IsLost send try_send 1 next_stored (
    run send try_send 4
      (fails (other (codes "the management channel closed")))
      (supervising ∷ [])
      next_stored)
loss-IsLost_example =
    loss-IsLost send try_send (other (codes "the management channel closed")) 1 next_stored refl

connect-IsUp_example : IsUp send try_send (new_inner tt tt) (
    run send try_send 6 done
      ((connect send try_send (new_inner tt tt)).1)
      ((connect send try_send (new_inner tt tt)).0))
connect-IsUp_example = connect-IsUp send try_send (new_inner tt tt) idle

-- ===== src/Session/Orchestrator/Ended.antt =====
-- What a disconnect of daemon/src/session/mod.rs comes to where nothing else runs beside it, and
-- what the supervisor then reports.
use thisconnect.Prelude.{
  some-injective, ℕ, ◌≡◌, refl, sym, ap, subst, Bool, true, Option, none, some, List, [], ◌∷◌, ◌++◌,
  inl, inr, Bool-cases,
}
use thisconnect.Prelude.Text.{Text}
use thisconnect.Session.State.{
  SessionState, disconnecting, StateEvent, StateCell, force, begin_disconnect, state_eq, is_busy,
  commit,
}
use thisconnect.Session.Orchestrator.{
  Inner, Task, closing, supervising, Outcome, fails, Failure, remove, detail_of,
}
use thisconnect.Session.Orchestrator.Turn.{
  finish_disconnect, take_to_close, take_to_bury, settle_loss, turn, disconnect, settle_disconnect,
}
use thisconnect.Session.Orchestrator.Alone.{run, IsOver}

is_failed : (s : SessionState) → state_eq s SessionState.failed ≡ true → s ≡ SessionState.failed
unfolding state_eq
is_failed SessionState.disconnected h = cc
is_failed SessionState.connecting h = cc
is_failed SessionState.authenticating h = cc
is_failed SessionState.connected h = cc
is_failed SessionState.disconnecting h = cc
is_failed SessionState.failed h = refl

module _ {W Q : Type 0} (send : SessionState → W → W) (try_send : StateEvent → Q → Bool × Q) where
  pub disconnect-closing :
      (i : Inner W Q)
      → i.cell.current ≡ SessionState.connected
      → disconnect send try_send i
        ≡ (record i { cell = commit send try_send disconnecting none i.cell }, closing ∷ [])
  unfolding disconnect begin_disconnect settle_disconnect is_busy state_eq
  disconnect-closing i h = rw h refl

  closed-IsOver :
      (o : Outcome) (r : ℕ) (m : Option ℕ) (i : Inner W Q)
      → m ≡ some r
      → i.cell.current ≡ disconnecting
      → IsOver send try_send (remove r i.up) (
          run send try_send 2 o
            ((take_to_close send try_send m i).1 ++ [])
            ((take_to_close send try_send m i).0))
        × ((run send try_send 2 o
              ((take_to_close send try_send m i).1 ++ [])
              ((take_to_close send try_send m i).0)).0.active
            ≡ none)
  unfolding take_to_close turn finish_disconnect force commit state_eq is_busy
  closed-IsOver o r none i e h = cc
  closed-IsOver o r (some q) i e h =
      let same = some-injective e in
      (record { ended = refl; gone = ap (λ x. remove x i.up) same; idle = rw h refl }, refl)

  pub forced_failed :
      (detail : Option Text) (c : StateCell W Q)
      → (force send try_send SessionState.failed detail c).current ≡ SessionState.failed
  unfolding force commit
  forced_failed detail c = elim (Bool-cases (state_eq c.current SessionState.failed)) [
    | inl same ↦ rw same (is_failed c.current same)
    | inr differs ↦ rw differs refl
  ]

  nothing_buried :
      (why : Failure) (m : Option ℕ) (i : Inner W Q)
      → m ≡ none
      → IsOver send try_send i.up (
          run send try_send 1
            (fails why)
            ((take_to_bury send try_send (detail_of why) m i).1 ++ [])
            ((take_to_bury send try_send (detail_of why) m i).0))
  unfolding take_to_bury turn settle_loss is_busy
  nothing_buried why none i e = record {
    ended = refl;
    gone = refl;
    idle = ap is_busy (forced_failed (some (detail_of why)) i.cell);
  }
  nothing_buried why (some q) i e = cc

  -- A supervisor that reports a loss where the slot is empty.
  reported-IsOver :
      (why : Failure) (i : Inner W Q)
      → i.active ≡ none
      → IsOver send try_send i.up (run send try_send 3 (fails why) (supervising ∷ []) i)
  unfolding turn
  reported-IsOver why i e =
      let t = detail_of why in
      let b =
        nothing_buried why i.active
          (record i { cell = force send try_send disconnecting (some t) i.cell }) e in
      record { ended = b.ended; gone = b.gone; idle = b.idle }

  -- The manager after a disconnect that runs to its end, and then after the report of a supervisor.
  abbrev pub disconnected_from : Outcome → Inner W Q → Inner W Q × List Task
  disconnected_from o i =
      run send try_send 3 o ((disconnect send try_send i).1) ((disconnect send try_send i).0)

  -- A disconnect of a session that is up and stored, where no other task steps before its end,
  -- tears it down, empties the slot, and ends in a state in which a new one may begin. The
  -- supervisor of that session, which then reports that it was lost, tears nothing more down and
  -- ends in such a state too.
  pub disconnect-IsOver :
      (o : Outcome) (why : Failure) (r : ℕ) (i : Inner W Q)
      → i.cell.current ≡ SessionState.connected
      → i.active ≡ some r
      → IsOver send try_send (remove r i.up) (disconnected_from o i)
        × ((disconnected_from o i).0.active ≡ none)
        × IsOver send try_send
            (remove r i.up)
            (run send try_send 3 (fails why) (supervising ∷ []) ((disconnected_from o i).0))
  unfolding turn commit
  disconnect-IsOver o why r i h e =
      let (over, emptied) =
        subst
          (λ m.
            IsOver send try_send (remove r i.up) (run send try_send 3 o (m.1) (m.0))
            × ((run send try_send 3 o (m.1) (m.0)).0.active ≡ none))
          (sym (disconnect-closing i h))
          (let (over, emptied) =
              closed-IsOver o r i.active
                (record i { cell = commit send try_send disconnecting none i.cell }) e refl in
            (record { ended = over.ended; gone = over.gone; idle = over.idle }, emptied)) in
      (
        over,
        emptied,
        subst
            (λ up.
              IsOver send try_send up
                (run send try_send 3 (fails why) (supervising ∷ []) ((disconnected_from o i).0)))
            over.gone (reported-IsOver why ((disconnected_from o i).0) emptied),
      )

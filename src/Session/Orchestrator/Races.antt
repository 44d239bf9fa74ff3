-- ===== src/Session/Orchestrator/Races.antt =====
-- What daemon/src/session/mod.rs comes to where a call is left alone, and where it is overtaken.
use thisconnect.Prelude.{
  some-injective, ℕ, ◌≡◌, refl, sym, ap, subst, Bool, false, Option, none, some, List, [], ◌∷◌,
  ◌++◌,
}
use thisconnect.Session.State.{
  SessionState, disconnecting, connecting, StateEvent, advance, advance_with, force, begin_connect,
  state_eq, permits, is_busy, commit,
}
use thisconnect.Session.Orchestrator.{
  Inner, Task, starting, storing, supervising, Outcome, done, fails, Failure, detail_of, remove,
  slot, no_status,
}
use thisconnect.Session.Orchestrator.Turn.{
  start_openvpn, bring_up, settle_transition, settle_attempt, settle_commit, commit_attempt,
  finish_disconnect, take_to_close, take_to_bury, settle_loss, turn, connect, settle_connect,
  disconnect,
}
use thisconnect.Session.Orchestrator.Alone.{run}
use thisconnect.Session.Orchestrator.Ended.{disconnect-closing, forced_failed}

idle_is_not_connected :
    (s : SessionState) → is_busy s ≡ false → state_eq s SessionState.connected ≡ false
unfolding is_busy state_eq
idle_is_not_connected SessionState.disconnected h = refl
idle_is_not_connected SessionState.connecting h = refl
idle_is_not_connected SessionState.authenticating h = refl
idle_is_not_connected SessionState.connected h = h
idle_is_not_connected SessionState.disconnecting h = refl
idle_is_not_connected SessionState.failed h = refl

module _ {W Q : Type 0} (send : SessionState → W → W) (try_send : StateEvent → Q → Bool × Q) where
  connect-idle :
      (i : Inner W Q)
      → is_busy i.cell.current ≡ false
      → connect send try_send i
        ≡ (record i { cell = commit send try_send connecting none i.cell }, starting ∷ [])
  unfolding connect begin_connect settle_connect
  connect-idle i h = rw (idle_is_not_connected i.cell.current h, h) refl

  -- A session has come up: it is stored, the clients see it, and its supervisor runs.
  pub record IsUp (i : Inner W Q) (after : Inner W Q × List Task) : Type 0 where
    pub supervised : after.1 ≡ supervising ∷ []
    pub current : after.0.cell.current ≡ SessionState.connected
    pub stored : after.0.active ≡ some i.next
    pub shown : after.0.status ≡ record no_status { tunnel = some i.next }
    pub started : after.0.up ≡ i.next ∷ i.up
    pub replaced : after.0.dropped ≡ slot i.active ++ i.dropped

  begun-IsUp :
      (i : Inner W Q)
      → IsUp i (
          run send try_send 6 done
            (starting ∷ [])
            (record i { cell = commit send try_send connecting none i.cell }))
  unfolding turn start_openvpn bring_up settle_transition settle_attempt commit_attempt
      settle_commit advance advance_with commit state_eq permits
  begun-IsUp i = record {
    supervised = refl;
    current = refl;
    stored = refl;
    shown = refl;
    started = refl;
    replaced = refl;
  }

  -- A connect of an idle manager, which nothing overtakes and whose every wait turns out well,
  -- ends with its session stored, shown to the clients and supervised. Its resources are the only
  -- ones that it started.
  pub connect-IsUp :
      (i : Inner W Q)
      → is_busy i.cell.current ≡ false
      → IsUp i
          (run send try_send 6 done ((connect send try_send i).1) ((connect send try_send i).0))
  connect-IsUp i h =
      subst (λ m. IsUp i (run send try_send 6 done (m.1) (m.0))) (sym (connect-idle i h))
        (begun-IsUp i)

  -- A manager that says it is disconnected and holds a session that is up.
  pub record IsStranded (r : ℕ) (i after : Inner W Q) : Type 0 where
    pub current : after.cell.current ≡ SessionState.disconnected
    pub held : after.active ≡ some r
    pub up : after.up ≡ i.up

  abbrev pub after_disconnect : Outcome → Inner W Q → Inner W Q
  after_disconnect o i =
      (run send try_send 2 o ((disconnect send try_send i).1) ((disconnect send try_send i).0)).0

  stored-IsStranded :
      (o : Outcome) (r : ℕ) (m : Option ℕ) (i : Inner W Q)
      → m ≡ none
      → i.cell.current ≡ disconnecting
      → IsStranded r i
          (run send try_send 1 o (storing r ∷ []) (
            (run send try_send 1 o
              ((take_to_close send try_send m i).1 ++ [])
              ((take_to_close send try_send m i).0)).0)).0
  unfolding take_to_close turn finish_disconnect force commit state_eq
  stored-IsStranded o r none i e h = record { current = rw h refl; held = refl; up = refl }
  stored-IsStranded o r (some q) i e h = cc

  -- A disconnect that runs from the commit of an attempt to the store of its session finds the slot
  -- empty: the session is stored behind it, up, in a manager that says it is disconnected.
  pub overtaken-IsStranded :
      (o : Outcome) (r : ℕ) (i : Inner W Q)
      → i.cell.current ≡ SessionState.connected
      → i.active ≡ none
      → IsStranded r i (run send try_send 1 o (storing r ∷ []) (after_disconnect o i)).0
  unfolding turn commit
  overtaken-IsStranded o r i h e =
      subst
        (λ m.
          IsStranded r i
            (run send try_send 1 o (storing r ∷ []) ((run send try_send 2 o (m.1) (m.0)).0)).0)
        (sym (disconnect-closing send try_send i h))
        (let s =
            stored-IsStranded o r i.active
              (record i { cell = commit send try_send disconnecting none i.cell }) e refl in
          record { current = s.current; held = s.held; up = s.up })

  -- What a lost tunnel leaves: no session in the slot, the one that was there torn down, the cell
  -- failed, and nothing running.
  pub record IsLost (r : ℕ) (i : Inner W Q) (after : Inner W Q × List Task) : Type 0 where
    pub over : after.1 ≡ []
    pub emptied : after.0.active ≡ none
    pub gone : after.0.up ≡ remove r i.up
    pub current : after.0.cell.current ≡ SessionState.failed

  buried-IsLost :
      (why : Failure) (q : ℕ) (m : Option ℕ) (i : Inner W Q)
      → m ≡ some q
      → IsLost q i (
          run send try_send 2
            (fails why)
            ((take_to_bury send try_send (detail_of why) m i).1 ++ [])
            ((take_to_bury send try_send (detail_of why) m i).0))
  unfolding take_to_bury turn settle_loss
  buried-IsLost why q none i e = cc
  buried-IsLost why q (some r) i e = record {
    over = refl;
    emptied = refl;
    gone = ap (λ x. remove x i.up) (some-injective e);
    current = forced_failed send try_send (some (detail_of why)) i.cell;
  }

  -- A supervisor that sees its tunnel go down, whichever session it was started for, tears down the
  -- session that is in the slot by then.
  pub loss-IsLost :
      (why : Failure) (q : ℕ) (i : Inner W Q)
      → i.active ≡ some q
      → IsLost q i (run send try_send 4 (fails why) (supervising ∷ []) i)
  unfolding turn
  loss-IsLost why q i e =
      let t = detail_of why in
      let l =
        buried-IsLost why q i.active
          (record i { cell = force send try_send disconnecting (some t) i.cell }) e in
      record { over = l.over; emptied = l.emptied; gone = l.gone; current = l.current }

-- ===== src/Session/State/Transitions.antt =====
-- What one operation of the cell of daemon/src/session/state.rs does to it.
use thisconnect.Prelude.{◌≡◌, refl, subst, ◌≢◌, Bool, true, false, not, ◌&&◌, Option}
use thisconnect.Prelude.Text.{Text}
use thisconnect.Session.State.{
  SessionState, connecting, connected, disconnecting, failed, StateEvent, is_busy, state_eq,
  permits, StateCell, commit, begin_connect, begin_disconnect, advance_with, force,
}
use thisconnect.Session.State.Steps.{
  Op, connect, disconnect, advance_to, force_to, detail_of, Moves, connect_idle, connect_failed,
  connect_busy, disconnect_connecting, disconnect_authenticating, disconnect_connected,
  disconnect_failed, disconnect_idle, disconnect_twice, advanced, refused, forced, permits-Follows,
  ne_of_state_eq, state_eq_sound, not_followed, itself,
}

module _ {W Q : Type 0} (send : SessionState → W → W) (try_send : StateEvent → Q → Bool × Q) where
  -- The cell is left alone, or moves to another state, as the operation may do.
  pub data Turn (op : Op) (c : StateCell W Q) : StateCell W Q → Type 0 where
    stay : Moves op c.current c.current → Turn op c c
    move :
        (next : SessionState)
        → Moves op c.current next
        → c.current ≢ next
        → Turn op c (commit send try_send next (detail_of op) c)

  connect_from :
      (s : SessionState)
      → state_eq s connected ≡ false
      → is_busy s ≡ false
      → Moves connect s connecting × (s ≢ connecting)
  unfolding state_eq is_busy
  connect_from SessionState.disconnected h k = (connect_idle, λ e. cc)
  connect_from SessionState.failed h k = (connect_failed, λ e. cc)
  connect_from _ h k = cc

  connect_stays : (s : SessionState) → is_busy s ≡ true → Moves connect s s
  unfolding is_busy
  connect_stays SessionState.disconnected h = cc
  connect_stays SessionState.failed h = cc
  connect_stays s h = connect_busy s (λ e. cc) (λ e. cc)

  disconnect_from :
      (s : SessionState)
      → (not (is_busy s) && not (state_eq s failed)) ≡ false
      → state_eq s disconnecting ≡ false
      → Moves disconnect s disconnecting × (s ≢ disconnecting)
  unfolding state_eq is_busy
  disconnect_from SessionState.connecting h k = (disconnect_connecting, λ e. cc)
  disconnect_from SessionState.authenticating h k = (disconnect_authenticating, λ e. cc)
  disconnect_from SessionState.connected h k = (disconnect_connected, λ e. cc)
  disconnect_from SessionState.failed h k = (disconnect_failed, λ e. cc)
  disconnect_from _ h k = cc

  disconnect_stays :
      (s : SessionState)
      → (not (is_busy s) && not (state_eq s failed)) ≡ true
      → Moves disconnect s s
  unfolding state_eq is_busy
  disconnect_stays SessionState.disconnected h = disconnect_idle
  disconnect_stays _ h = cc

  disconnect_repeats : (s : SessionState) → state_eq s disconnecting ≡ true → Moves disconnect s s
  unfolding state_eq
  disconnect_repeats SessionState.disconnecting h = disconnect_twice
  disconnect_repeats _ h = cc

  connected_is_busy : (s : SessionState) → state_eq s connected ≡ true → is_busy s ≡ true
  unfolding state_eq is_busy
  connected_is_busy SessionState.connected h = refl
  connected_is_busy _ h = cc

  pub begin_connect-Turn : (c : StateCell W Q) → Turn connect c (begin_connect send try_send c).1
  begin_connect-Turn c = go (state_eq c.current connected) (is_busy c.current) refl refl
    where
      go :
          (a b : Bool)
          → state_eq c.current connected ≡ a
          → is_busy c.current ≡ b
          → Turn connect c (begin_connect send try_send c).1
      go true b p q =
          unfold begin_connect in
          rw p (stay (connect_stays c.current (connected_is_busy c.current p)))
      go false true p q = unfold begin_connect in rw (p, q) (stay (connect_stays c.current q))
      go false false p q =
          let (step, differs) = connect_from c.current p q in
          unfold begin_connect in rw (p, q) (move connecting step differs)

  pub begin_disconnect-Turn :
      (c : StateCell W Q) → Turn disconnect c (begin_disconnect send try_send c).1
  begin_disconnect-Turn c =
      go (not (is_busy c.current) && not (state_eq c.current failed))
        (state_eq c.current disconnecting) refl refl
    where
      go :
          (a b : Bool)
          → (not (is_busy c.current) && not (state_eq c.current failed)) ≡ a
          → state_eq c.current disconnecting ≡ b
          → Turn disconnect c (begin_disconnect send try_send c).1
      go true b p q = unfold begin_disconnect in rw p (stay (disconnect_stays c.current p))
      go false true p q =
          unfold begin_disconnect in rw (p, q) (stay (disconnect_repeats c.current q))
      go false false p q =
          let (step, differs) = disconnect_from c.current p q in
          unfold begin_disconnect in rw (p, q) (move disconnecting step differs)

  pub advance_with-Turn :
      (c : StateCell W Q) (next : SessionState) (detail : Option Text)
      → Turn (advance_to next detail) c (advance_with send try_send next detail c).1
  advance_with-Turn c next detail = go (state_eq c.current next) (permits c.current next) refl refl
    where
      go :
          (a b : Bool)
          → state_eq c.current next ≡ a
          → permits c.current next ≡ b
          → Turn (advance_to next detail) c (advance_with send try_send next detail c).1
      go true b p q =
          unfold advance_with in
          rw p (
            stay (
              subst (λ t. Moves (advance_to t detail) c.current c.current)
                (state_eq_sound c.current next p) (itself c.current detail)))
      go false false p q =
          unfold advance_with in
          rw (p, q) (stay (refused c.current next detail (not_followed c.current next q)))
      go false true p q =
          unfold advance_with in
          rw (p, q)
            (move next (advanced c.current next detail (permits-Follows c.current next q))
              (ne_of_state_eq c.current next p))

  pub force-Turn :
      (c : StateCell W Q) (next : SessionState) (detail : Option Text)
      → Turn (force_to next detail) c (force send try_send next detail c)
  force-Turn c next detail = go (state_eq c.current next) refl
    where
      go :
          (a : Bool)
          → state_eq c.current next ≡ a
          → Turn (force_to next detail) c (force send try_send next detail c)
      go true p =
          unfold force in
          rw p (
            stay (
              subst (λ t. Moves (force_to t detail) c.current c.current)
                (state_eq_sound c.current next p) (forced c.current c.current detail)))
      go false p =
          unfold force in
          rw p (move next (forced c.current next detail) (ne_of_state_eq c.current next p))

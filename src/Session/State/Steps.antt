-- ===== src/Session/State/Steps.antt =====
-- The operations on the cell of daemon/src/session/state.rs, and what each may make of a state.
use thisconnect.Prelude.{◌≡◌, refl, subst, ◌≢◌, true, false, Option, none, inl, inr, Bool-cases}
use thisconnect.Prelude.Text.{Text}
use thisconnect.Session.State.{
  SessionState, disconnected, connecting, authenticating, connected, disconnecting, failed,
  state_eq, permits,
}

-- An operation on the cell.
pub data Op : Type 0 where
  connect disconnect : Op
  advance_to force_to : SessionState → Option Text → Op

abbrev pub detail_of : Op → Option Text
detail_of connect = none
detail_of disconnect = none
detail_of (advance_to next detail) = detail
detail_of (force_to next detail) = detail

-- How a session advances: each state that may follow another.
pub data Follows : SessionState → SessionState → Type 0 where
  attempt : Follows disconnected connecting
  retry : Follows failed connecting
  challenge : Follows connecting authenticating
  up : Follows connecting connected
  up_after_challenge : Follows authenticating connected
  cancel : Follows connecting disconnecting
  cancel_challenge : Follows authenticating disconnecting
  hang_up : Follows connected disconnecting
  land : Follows disconnecting disconnected
  clear : Follows failed disconnected
  fail : (s : SessionState) → Follows s failed

-- What each operation may make of a state, and where it leaves it alone.
pub data Moves : Op → SessionState → SessionState → Type 0 where
  connect_idle : Moves connect disconnected connecting
  connect_failed : Moves connect failed connecting
  connect_busy : (s : SessionState) → s ≢ disconnected → s ≢ failed → Moves connect s s
  disconnect_connecting : Moves disconnect connecting disconnecting
  disconnect_authenticating : Moves disconnect authenticating disconnecting
  disconnect_connected : Moves disconnect connected disconnecting
  disconnect_failed : Moves disconnect failed disconnecting
  disconnect_idle : Moves disconnect disconnected disconnected
  disconnect_twice : Moves disconnect disconnecting disconnecting
  advanced :
      (s t : SessionState) (detail : Option Text) → Follows s t → Moves (advance_to t detail) s t
  refused :
      (s t : SessionState) (detail : Option Text)
      → (Follows s t → ⊥)
      → Moves (advance_to t detail) s s
  forced : (s t : SessionState) (detail : Option Text) → Moves (force_to t detail) s t

pub permits-Follows : (a b : SessionState) → permits a b ≡ true → Follows a b
unfolding permits
permits-Follows a SessionState.failed h = fail a
permits-Follows SessionState.disconnected SessionState.connecting h = attempt
permits-Follows SessionState.failed SessionState.connecting h = retry
permits-Follows SessionState.connecting SessionState.authenticating h = challenge
permits-Follows SessionState.connecting SessionState.connected h = up
permits-Follows SessionState.connecting SessionState.disconnecting h = cancel
permits-Follows SessionState.authenticating SessionState.connected h = up_after_challenge
permits-Follows SessionState.authenticating SessionState.disconnecting h = cancel_challenge
permits-Follows SessionState.connected SessionState.disconnecting h = hang_up
permits-Follows SessionState.disconnecting SessionState.disconnected h = land
permits-Follows SessionState.failed SessionState.disconnected h = clear
permits-Follows _ _ h = cc

Follows-permits : (a b : SessionState) → Follows a b → permits a b ≡ true
unfolding permits
Follows-permits a b attempt = refl
Follows-permits a b retry = refl
Follows-permits a b challenge = refl
Follows-permits a b up = refl
Follows-permits a b up_after_challenge = refl
Follows-permits a b cancel = refl
Follows-permits a b cancel_challenge = refl
Follows-permits a b hang_up = refl
Follows-permits a b land = refl
Follows-permits a b clear = refl
Follows-permits SessionState.disconnected b (fail s) = refl
Follows-permits SessionState.connecting b (fail s) = refl
Follows-permits SessionState.authenticating b (fail s) = refl
Follows-permits SessionState.connected b (fail s) = refl
Follows-permits SessionState.disconnecting b (fail s) = refl
Follows-permits SessionState.failed b (fail s) = refl

state_eq_refl : (a : SessionState) → state_eq a a ≡ true
unfolding state_eq
state_eq_refl SessionState.disconnected = refl
state_eq_refl SessionState.connecting = refl
state_eq_refl SessionState.authenticating = refl
state_eq_refl SessionState.connected = refl
state_eq_refl SessionState.disconnecting = refl
state_eq_refl SessionState.failed = refl

pub ne_of_state_eq : (a b : SessionState) → state_eq a b ≡ false → a ≢ b
ne_of_state_eq a b h e = cc (subst (λ x. state_eq a x ≡ true) e (state_eq_refl a))

pub state_eq_sound : (a b : SessionState) → state_eq a b ≡ true → a ≡ b
unfolding state_eq
state_eq_sound SessionState.disconnected SessionState.disconnected h = refl
state_eq_sound SessionState.connecting SessionState.connecting h = refl
state_eq_sound SessionState.authenticating SessionState.authenticating h = refl
state_eq_sound SessionState.connected SessionState.connected h = refl
state_eq_sound SessionState.disconnecting SessionState.disconnecting h = refl
state_eq_sound SessionState.failed SessionState.failed h = refl
state_eq_sound _ _ h = cc

pub not_followed : (s t : SessionState) → permits s t ≡ false → Follows s t → ⊥
not_followed s t h f = cc (h, Follows-permits s t f)

-- An advance to the state that the cell is in.
pub itself : (s : SessionState) (detail : Option Text) → Moves (advance_to s detail) s s
itself s detail = elim (Bool-cases (permits s s)) [
  | inl allowed ↦ advanced s s detail (permits-Follows s s allowed)
  | inr denied ↦ refused s s detail (not_followed s s denied)
]

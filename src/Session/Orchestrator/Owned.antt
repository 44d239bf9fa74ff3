-- ===== src/Session/Orchestrator/Owned.antt =====
-- Who holds the resources of a session of daemon/src/session/mod.rs, in every order of steps.
use thisconnect.Prelude.{ℕ, ◌+◌, ◌≤◌, ◌≡◌, refl, Bool, List, ◌∷◌, ◌++◌, arith, Result, ok, err}
use thisconnect.Session.State.{SessionState, SessionError, StateEvent}
use thisconnect.Session.Orchestrator.{Inner, new_inner, Task}
use thisconnect.Session.Orchestrator.Turn.{
  settle_connect, connect, settle_disconnect, disconnect, record_bytes, Reached, fresh, connects,
  disconnects, turns, counts,
}
use thisconnect.Session.Orchestrator.Tally.{tally, held, held_all, tally-append, held_all-append}
use thisconnect.Session.Orchestrator.Balanced.{outside, IsBalanced, turn-IsBalanced}

module _ {W Q : Type 0} where
  -- Every session that is up is held by one task or by the slot, or was dropped from it, and is
  -- held once.
  pub record IsOwned (i : Inner W Q) (ts : List Task) : Type 0 where
    pub owned : (r : ℕ) → tally r i.up ≡ tally r (held_all ts) + outside r i
    pub drawn : (r : ℕ) → i.next ≤ r → tally r i.up ≡ 0
    pub once : (r : ℕ) → tally r i.up ≤ 1

  renamed :
      (i j : Inner W Q) (ts us : List Task)
      → j.up ≡ i.up
      → j.next ≡ i.next
      → ((r : ℕ) → outside r j ≡ outside r i)
      → ((r : ℕ) → tally r (held_all us) ≡ tally r (held_all ts))
      → IsOwned i ts
      → IsOwned j us
  renamed i j ts us e f g h o = record {
    owned = λ r. rw e (omega (arith, o.owned r, g r, h r));
    drawn = λ r l. rw e (o.drawn r (omega (arith, f, l)));
    once = λ r. rw e (o.once r);
  }

  -- a step of one task among others
  turned :
      (t : Task) (front back : List Task) (i : Inner W Q) (after : Inner W Q × List Task)
      → IsOwned i (front ++ (t ∷ back))
      → IsBalanced i t after
      → IsOwned (after.0) (front ++ (after.1 ++ back))
  turned t front back i after o b = record {
    owned = λ r. omega (
      arith,
      o.owned r,
      b.moved r,
      held_all-append r front (t ∷ back),
      tally-append r (held t) (held_all back),
      held_all-append r front (after.1 ++ back),
      held_all-append r (after.1) back,
    );
    drawn = b.drawn;
    once = b.once;
  }

  holds_up :
      (t : Task) (front back : List Task) (i : Inner W Q)
      → IsOwned i (front ++ (t ∷ back))
      → (r : ℕ) → tally r (held t) ≤ tally r i.up
  holds_up t front back i o r = omega (
    arith,
    o.owned r,
    held_all-append r front (t ∷ back),
    tally-append r (held t) (held_all back),
  )

module _ {W Q : Type 0} (send : SessionState → W → W) (try_send : StateEvent → Q → Bool × Q) where
  connect_holds :
      (r : ℕ) (m : Result SessionError Unit) (ts : List Task)
      → tally r (held_all (settle_connect send try_send m ++ ts)) ≡ tally r (held_all ts)
  unfolding settle_connect
  connect_holds r (ok u) ts = refl
  connect_holds r (err e) ts = refl

  disconnect_holds :
      (r : ℕ) (m : Result SessionError SessionState) (ts : List Task)
      → tally r (held_all (settle_disconnect send try_send m ++ ts)) ≡ tally r (held_all ts)
  unfolding settle_disconnect
  disconnect_holds r (err e) ts = refl
  disconnect_holds r (ok SessionState.disconnected) ts = refl
  disconnect_holds r (ok SessionState.connecting) ts = refl
  disconnect_holds r (ok SessionState.authenticating) ts = refl
  disconnect_holds r (ok SessionState.connected) ts = refl
  disconnect_holds r (ok SessionState.disconnecting) ts = refl
  disconnect_holds r (ok SessionState.failed) ts = refl

  -- Whatever calls of `connect` and `disconnect` and whatever losses of tunnels interleave, in
  -- whatever order, each session whose openvpn was started and not torn down is held once: by the
  -- one task that will store it or tear it down, by the slot, or it was dropped from the slot when
  -- another was stored there. No two of them have one number.
  pub Reached-IsOwned : (i : Inner W Q) (ts : List Task) → Reached send try_send i ts → IsOwned i ts
  unfolding new_inner connect disconnect record_bytes
  Reached-IsOwned i ts (fresh channel events) = record {
    owned = λ r. refl;
    drawn = λ r l. refl;
    once = λ r. omega arith;
  }
  Reached-IsOwned i ts (connects j us h) =
      renamed j _ us _ refl refl (λ r. refl) (λ r. connect_holds r _ us) (Reached-IsOwned j us h)
  Reached-IsOwned i ts (disconnects j us h) =
      renamed j _ us _ refl refl (λ r. refl) (λ r. disconnect_holds r _ us) (Reached-IsOwned j us h)
  Reached-IsOwned i ts (turns o t front back j h) =
      let owned = Reached-IsOwned j (front ++ (t ∷ back)) h in
      turned t front back j _ owned
        (turn-IsBalanced send try_send o t j (holds_up t front back j owned) owned.drawn owned.once)
  Reached-IsOwned i ts (counts up down j us h) =
      renamed j _ us us refl refl (λ r. refl) (λ r. refl) (Reached-IsOwned j us h)

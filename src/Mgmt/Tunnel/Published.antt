-- ===== src/Mgmt/Tunnel/Published.antt =====
-- The state that daemon/src/mgmt/tunnel.rs publishes follows its tracker at every event.
use thisconnect.Prelude.{
  inr, inl, [], Bool-cases, ◌≤◌, not, length, ◌∷◌, ◌+◌, ◌&&◌, ℕ, if◌then◌else◌, List, ◌≡◌, refl,
  sym, ◌∙◌, Bool, true, false, Option, none, some, arith, Result, ok, err,
}
use thisconnect.Mgmt.Escape.{MgmtError}
use thisconnect.Mgmt.Event.{Event, state, fatal, updown, is_connected}
use thisconnect.Mgmt.Tunnel.{
  u64_max, saturating_suc, observe_and_publish, UpDownCollector, UpDownOutcome, came_up, went_down,
  collect, TunnelTracker, idle, TunnelEvent, transition, fold_outcome, fold_updown, observe,
  TunnelState, publish, publish_disconnected, after_observe,
}

-- The published state shows the tracker.
pub record Shows (s : TunnelState) (t : TunnelTracker) : Type 0 where
  pub connected : s.connected ≡ t.connected
  pub identity : s.identity ≡ t.identity

-- A silent step changes nothing that is shown.
abbrev Quiet : TunnelTracker → Result MgmtError (TunnelTracker × Option TunnelEvent) → Type 0
Quiet t (ok (next, none)) = (next.connected ≡ t.connected) × (next.identity ≡ t.identity)
Quiet t _ = Unit

fold_outcome-Quiet :
    (t : TunnelTracker) (c : UpDownCollector) (o : Option (Result MgmtError UpDownOutcome))
    → Quiet t (fold_outcome t c o)
unfolding fold_outcome
fold_outcome-Quiet t c none = (refl, refl)
fold_outcome-Quiet t c (some (ok (came_up i))) = tt
fold_outcome-Quiet t c (some (ok went_down)) = tt
fold_outcome-Quiet t c (some (err e)) = tt

transition-Quiet : (t : TunnelTracker) (b : Bool) → Quiet t (ok (transition t b))
unfolding transition
transition-Quiet t true = ground arith
transition-Quiet t false = ground arith

observe-Quiet : (t : TunnelTracker) (e : Event) → Quiet t (observe t e)
unfolding observe fold_updown
observe-Quiet t (state s) = transition-Quiet t (is_connected s)
observe-Quiet t (fatal text) = transition-Quiet t false
observe-Quiet t (updown line) =
    fold_outcome-Quiet t (collect t.collector line).0 (collect t.collector line).1
observe-Quiet t _ = (refl, refl)

-- Where the actor stands after an event: at the next tracker, or at its end.
abbrev pub tracker_of : Result MgmtError TunnelTracker → TunnelTracker
tracker_of (ok t) = t
tracker_of (err e) = idle

after_observe-Shows :
    (t : TunnelTracker) (s : TunnelState)
    (o : Result MgmtError (TunnelTracker × Option TunnelEvent))
    → Quiet t o
    → Shows s t
    → Shows (after_observe s o).1 (tracker_of (after_observe s o).0)
unfolding publish publish_disconnected
after_observe-Shows t s (ok (next, none)) q h = record {
  connected = h.connected ∙ sym q.0;
  identity = h.identity ∙ sym q.1;
}
after_observe-Shows t s (ok (next, some e)) q h = record { connected = refl; identity = refl }
after_observe-Shows t s (err e) q h = record { connected = refl; identity = refl }

-- The actor's loop over the events, up to the first error.
unfoldable pub observe_all :
    TunnelTracker → TunnelState → List Event → Result MgmtError TunnelTracker × TunnelState
unfolding observe_and_publish
observe_all t s [] = (ok t, s)
observe_all t s (e ∷ es) =
    let (r, s') = observe_and_publish t e s in
    elim r [ ok t' ↦ observe_all t' s' es | err x ↦ (err x, s') ]

-- Over any events, whatever is silent or fails among them, the published state shows exactly the
-- connectivity and the identity of the tracker; where an event ended the actor in an error, it
-- shows a tunnel that is down and has no identity.
pub observe_all-Shows :
    (es : List Event) (t : TunnelTracker) (s : TunnelState)
    → Shows s t
    → Shows (observe_all t s es).1 (tracker_of (observe_all t s es).0)
unfolding observe_all
observe_all-Shows [] t s h = h
observe_all-Shows (e ∷ es) t s h =
    go (after_observe s (observe t e)).0 (after_observe s (observe t e)).1
      (after_observe-Shows t s (observe t e) (observe-Quiet t e) h) (observe_all-Shows es)
  where
    rest :
        Result MgmtError TunnelTracker → TunnelState → Result MgmtError TunnelTracker × TunnelState
    rest r s' = elim r [ ok t' ↦ observe_all t' s' es | err x ↦ (err x, s') ]

    go :
        (r : Result MgmtError TunnelTracker) (s' : TunnelState)
        → Shows s' (tracker_of r)
        → ((t' : TunnelTracker) (v : TunnelState)
            → Shows v t'
            → Shows (observe_all t' v es).1 (tracker_of (observe_all t' v es).0))
        → Shows (rest r s').1 (tracker_of (rest r s').0)
    go (ok t') s' k ih = ih t' s' k
    go (err x) s' k ih = k

-- One event moves the generation by at most one, and exactly when the published connectivity rises.
after_observe-generation :
    (t : TunnelTracker) (s : TunnelState)
    (o : Result MgmtError (TunnelTracker × Option TunnelEvent))
    → Quiet t o
    → Shows s t
    → (after_observe s o).1.generation ≡ (
        if (after_observe s o).1.connected && not s.connected
        then saturating_suc s.generation
        else s.generation)
unfolding publish publish_disconnected
after_observe-generation t s (ok (next, none)) q h = ground arith
after_observe-generation t s (ok (next, some e)) q h = refl
after_observe-generation t s (err e) q h = refl

-- How often the published connectivity rises while the events are observed.
unfoldable pub rises : TunnelTracker → TunnelState → List Event → ℕ
unfolding observe_and_publish
rises t s [] = 0
rises t s (e ∷ es) =
    let (r, s') = observe_and_publish t e s in
    let here : ℕ = if s'.connected && not s.connected then 1 else 0 in
    here + elim r [ ok t' ↦ rises t' s' es | err x ↦ 0 ]

-- The generation counts the reconnections: it grows by the number of times that the published
-- connectivity rises, as long as it has room below 2^64 for one more at each event.
pub generation-observe_all :
    (es : List Event) (t : TunnelTracker) (s : TunnelState)
    → Shows s t
    → s.generation + length es ≤ u64_max
    → (observe_all t s es).1.generation ≡ s.generation + rises t s es
unfolding observe_all rises
generation-observe_all [] t s h room = omega arith
generation-observe_all (e ∷ es) t s h room =
    go (after_observe s (observe t e)).0 (after_observe s (observe t e)).1
      (after_observe-Shows t s (observe t e) (observe-Quiet t e) h)
      (after_observe-generation t s (observe t e) (observe-Quiet t e) h) (generation-observe_all es)
  where
    rest :
        Result MgmtError TunnelTracker → TunnelState → Result MgmtError TunnelTracker × TunnelState
    rest r s' = elim r [ ok t' ↦ observe_all t' s' es | err x ↦ (err x, s') ]

    later : Result MgmtError TunnelTracker → TunnelState → ℕ
    later r s' = elim r [ ok t' ↦ rises t' s' es | err x ↦ 0 ]

    here : TunnelState → ℕ
    here s' = if s'.connected && not s.connected then 1 else 0

    go :
        (r : Result MgmtError TunnelTracker) (s' : TunnelState)
        → Shows s' (tracker_of r)
        → s'.generation
          ≡ (if s'.connected && not s.connected then saturating_suc s.generation else s.generation)
        → ((t' : TunnelTracker) (v : TunnelState)
            → Shows v t'
            → v.generation + length es ≤ u64_max
            → (observe_all t' v es).1.generation ≡ v.generation + rises t' v es)
        → (rest r s').1.generation ≡ s.generation + (here s' + later r s')
    go (ok t') s' k g ih = elim (Bool-cases (s'.connected && not s.connected)) [
      | inl rise ↦ rw rise (omega (arith, ih t' s' k (ground arith), rw rise at g, step_room))
      | inr flat ↦ rw flat (omega (arith, ih t' s' k (ground arith), rw flat at g))
    ]
      where
        step_room : saturating_suc s.generation ≡ s.generation + 1
        step_room = ground arith
    go (err x) s' k g ih = ground arith

-- ===== src/Session/State/History.antt =====
-- What clients see of the cell of daemon/src/session/state.rs over any sequence of operations.
use thisconnect.Prelude.{
  ◌≡◌, sym, subst, ◌∙◌, ◌≢◌, Bool, true, List, [], ◌∷◌, ◌++◌, append-nil, append_assoc,
}
use thisconnect.Session.State.{
  SessionState, disconnected, StateEvent, to_ipc, StateCell, new, commit, begin_connect,
  begin_disconnect, advance_with, force,
}
use thisconnect.Session.State.Steps.{
  Op, connect, disconnect, advance_to, force_to, Moves, detail_of,
}
use thisconnect.Session.State.Transitions.{
  Turn, stay, move, begin_connect-Turn, begin_disconnect-Turn, advance_with-Turn, force-Turn,
}

-- The event queue of a client that reads everything.
abbrev pub Log : Type 0
Log = List StateEvent

abbrev pub record_event : StateEvent → Log → Bool × Log
record_event e log = (true, log ++ e ∷ [])

module _ {W : Type 0} (send : SessionState → W → W) where
  pub apply_op : Op → StateCell W Log → StateCell W Log
  apply_op connect c = (begin_connect send record_event c).1
  apply_op disconnect c = (begin_disconnect send record_event c).1
  apply_op (advance_to next detail) c = (advance_with send record_event next detail c).1
  apply_op (force_to next detail) c = force send record_event next detail c

  unfoldable pub apply_ops : List Op → StateCell W Log → StateCell W Log
  unfolding apply_op
  apply_ops [] c = c
  apply_ops (op ∷ ops) c = apply_ops ops (apply_op op c)

  apply_op-Turn : (op : Op) (c : StateCell W Log) → Turn send record_event op c (apply_op op c)
  unfolding apply_op
  apply_op-Turn connect c = begin_connect-Turn send record_event c
  apply_op-Turn disconnect c = begin_disconnect-Turn send record_event c
  apply_op-Turn (advance_to next detail) c = advance_with-Turn send record_event c next detail
  apply_op-Turn (force_to next detail) c = force-Turn send record_event c next detail

-- What a run of operations comes to from a state: the events that it publishes, and the state at
-- its end. An operation that leaves the state alone publishes nothing, and one that moves it
-- publishes one event, of the new state.
pub data Run : SessionState → List Op → Log → SessionState → Type 0 where
  ended : (s : SessionState) → Run s [] [] s
  quiet :
      (s t : SessionState) (op : Op) (ops : List Op) (es : Log)
      → Moves op s s
      → Run s ops es t
      → Run s (op ∷ ops) es t
  shown :
      (s u t : SessionState) (op : Op) (ops : List Op) (es : Log)
      → Moves op s u
      → s ≢ u
      → Run u ops es t
      → Run s (op ∷ ops) (record { state = to_ipc u; detail = detail_of op } ∷ es) t

module _ {W : Type 0} (send : SessionState → W → W) where
  -- What a run publishes behind what was there.
  pub record IsRun (ops : List Op) (c d : StateCell W Log) : Type 0 where
    pub events : Log
    pub published : d.events ≡ c.events ++ events
    pub run : Run c.current ops events d.current

  turned-IsRun :
      (op : Op) (ops : List Op) (c d e : StateCell W Log)
      → Turn send record_event op c d
      → IsRun ops d e
      → IsRun (op ∷ ops) c e
  unfolding commit
  turned-IsRun op ops c d e (stay step) r = record {
    events = r.events;
    published = r.published;
    run = quiet c.current e.current op ops r.events step r.run;
  }
  turned-IsRun op ops c d e (move next step differs) r = record {
    events = record { state = to_ipc next; detail = detail_of op } ∷ r.events;
    published =
        r.published
        ∙ append_assoc c.events (record { state = to_ipc next; detail = detail_of op } ∷ [])
            r.events;
    run = shown c.current next e.current op ops r.events step differs r.run;
  }

  apply_ops-IsRun : (ops : List Op) (c : StateCell W Log) → IsRun ops c (apply_ops send ops c)
  unfolding apply_ops
  apply_ops-IsRun [] c = record {
    events = [];
    published = sym (append-nil c.events);
    run = ended c.current;
  }
  apply_ops-IsRun (op ∷ ops) c =
      turned-IsRun op ops c (apply_op send op c) (apply_ops send ops (apply_op send op c))
        (apply_op-Turn send op c) (apply_ops-IsRun ops (apply_op send op c))

  -- Whatever operations a fresh cell goes through, in whatever order, it moves as `Moves` says: a
  -- connect begins from `Disconnected` and `Failed` alone, a disconnect from every state but
  -- `Disconnected` and `Disconnecting`, an advance goes exactly where the table of `Follows` lets
  -- it, and a forced move goes anywhere; everything else leaves the state alone. A client that
  -- reads all events is told each change of the state, once, in order, with its detail, and
  -- nothing else.
  pub published-Run :
      (ops : List Op) (channel : W)
      → Run disconnected ops
          (apply_ops send ops (new channel [])).events
          (apply_ops send ops (new channel [])).current
  unfolding new
  published-Run ops channel =
      let r = apply_ops-IsRun ops (new channel []) in
      subst (λ es. Run disconnected ops es (apply_ops send ops (new channel [])).current)
        (sym r.published) r.run

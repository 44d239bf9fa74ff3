-- ===== src/Session/Orchestrator/Turn.antt =====
-- One step of a call of daemon/src/session/mod.rs or of its supervisor, and the orders in which such
-- steps interleave.
use thisconnect.Prelude.{ℕ, suc, Bool, Option, none, some, List, [], ◌∷◌, ◌++◌, Result, ok, err}
use thisconnect.Prelude.Text.{Text}
use thisconnect.Session.State.{
  SessionState, connecting, authenticating, disconnecting, SessionError, StateEvent, begin_connect,
  begin_disconnect, advance, force,
}
use thisconnect.Session.Orchestrator.{
  no_status, user_facing, Failure, cancelled, other, detail_of, Inner, new_inner, Task, starting,
  bringing_up, awaiting, established, committed, storing, abandoning, failing, closing,
  tearing_down, finishing, supervising, losing, burying_all, burying, Outcome, done, fails, remove,
  slot,
}

module _ {W Q : Type 0} (send : SessionState → W → W) (try_send : StateEvent → Q → Bool × Q) where
  abbrev pub tear_down : ℕ → Inner W Q → Inner W Q
  tear_down r i = record i { up = remove r i.up }

  -- `start_openvpn`; where it fails behind the spawn, dropping what it holds kills the process
  unfoldable pub start_openvpn : Outcome → Inner W Q → Inner W Q × List Task
  start_openvpn done i =
      (record i { up = i.next ∷ i.up; next = suc i.next }, bringing_up i.next ∷ [])
  start_openvpn (fails why) i = (i, failing why ∷ [])

  -- The transition of `bring_up`, which may be refused; then authentication and the policy.
  unfoldable pub settle_transition :
      ℕ → Result SessionError Unit → Inner W Q → Inner W Q × List Task
  unfolding user_facing
  settle_transition r (ok u) i = (i, awaiting r ∷ [])
  settle_transition r (err e) i = (i, abandoning r (other (user_facing e)) ∷ [])

  unfoldable pub bring_up : ℕ → Inner W Q → Inner W Q × List Task
  unfolding advance settle_transition
  bring_up r i =
      let (result, cell) = advance send try_send authenticating i.cell in
      settle_transition r result (record i { cell = cell })

  -- what `establish` makes of `bring_up`
  unfoldable pub settle_attempt : ℕ → Outcome → Inner W Q → Inner W Q × List Task
  settle_attempt r done i = (i, established r ∷ [])
  settle_attempt r (fails why) i = (i, abandoning r why ∷ [])

  -- the commit point of `run_connect`
  unfoldable pub settle_commit : ℕ → Result SessionError Unit → Inner W Q → Inner W Q × List Task
  unfolding user_facing
  settle_commit r (ok u) i = (i, committed r ∷ [])
  settle_commit r (err e) i = (i, abandoning r (other (user_facing e)) ∷ [])

  unfoldable pub commit_attempt : ℕ → Inner W Q → Inner W Q × List Task
  unfolding advance settle_commit
  commit_attempt r i =
      let (result, cell) = advance send try_send SessionState.connected i.cell in
      settle_commit r result (record i { cell = cell })

  unfoldable pub record_failure : Failure → Inner W Q → Inner W Q
  unfolding force
  record_failure (cancelled t) i = record i {
    status = record no_status { last_error = some t };
    cell = force send try_send SessionState.disconnected (some t) i.cell;
  }
  record_failure (other t) i = record i {
    status = record no_status { last_error = some t };
    cell = force send try_send SessionState.failed (some t) i.cell;
  }

  unfoldable pub finish_disconnect : Inner W Q → Inner W Q
  unfolding force
  finish_disconnect i = record i {
    status = no_status;
    cell = force send try_send SessionState.disconnected none i.cell;
  }

  -- `active.lock().await.take()` in `disconnect` and in `handle_loss`
  unfoldable pub take_to_close : Option ℕ → Inner W Q → Inner W Q × List Task
  take_to_close none i = (i, finishing ∷ [])
  take_to_close (some r) i = (record i { active = none }, tearing_down r ∷ [])

  unfoldable pub take_to_bury : Text → Option ℕ → Inner W Q → Inner W Q × List Task
  take_to_bury why none i = (i, burying_all why ∷ [])
  take_to_bury why (some r) i = (record i { active = none }, burying r why ∷ [])

  -- the end of `handle_loss`
  unfoldable pub settle_loss : Text → Inner W Q → Inner W Q
  unfolding force
  settle_loss why i = record i {
    status = record no_status { last_error = some why };
    cell = force send try_send SessionState.failed (some why) i.cell;
  }

  -- One step of a task: what it does to the manager, and what is left of it.
  unfoldable pub turn : Outcome → Task → Inner W Q → Inner W Q × List Task
  unfolding start_openvpn bring_up settle_attempt commit_attempt record_failure take_to_close
      finish_disconnect force take_to_bury settle_loss
  turn o starting i = start_openvpn o i
  turn o (bringing_up r) i = bring_up r i
  turn o (awaiting r) i = settle_attempt r o i
  turn o (established r) i = commit_attempt r i
  turn o (committed r) i =
      (record i { status = record no_status { tunnel = some r } }, storing r ∷ [])
  turn o (storing r) i =
      (record i { active = some r; dropped = slot i.active ++ i.dropped }, supervising ∷ [])
  turn o (abandoning r why) i = (tear_down r i, failing why ∷ [])
  turn o (failing why) i = (record_failure why i, [])
  turn o closing i = take_to_close i.active i
  turn o (tearing_down r) i = (tear_down r i, finishing ∷ [])
  turn o finishing i = (finish_disconnect i, [])
  turn done supervising i = (i, supervising ∷ [])
  turn (fails why) supervising i = (
    record i { cell = force send try_send disconnecting (some (detail_of why)) i.cell },
    losing (detail_of why) ∷ [],
  )
  turn o (losing why) i = take_to_bury why i.active i
  turn o (burying r why) i = (tear_down r i, burying_all why ∷ [])
  turn o (burying_all why) i = (settle_loss why i, [])

  -- the call of `connect`, up to its first await
  unfoldable pub settle_connect : Result SessionError Unit → List Task
  settle_connect (ok u) = starting ∷ []
  settle_connect (err e) = []

  unfoldable pub connect : Inner W Q → Inner W Q × List Task
  unfolding begin_connect settle_connect
  connect i =
      let (result, cell) = begin_connect send try_send i.cell in
      (record i { cell = cell }, settle_connect result)

  -- An attempt in flight tears its own resources down.
  unfoldable pub settle_disconnect : Result SessionError SessionState → List Task
  settle_disconnect (err e) = []
  settle_disconnect (ok connecting) = []
  settle_disconnect (ok authenticating) = []
  settle_disconnect (ok _) = closing ∷ []

  unfoldable pub disconnect : Inner W Q → Inner W Q × List Task
  unfolding begin_disconnect settle_disconnect
  disconnect i =
      let (result, cell) = begin_disconnect send try_send i.cell in
      (record i { cell = cell }, settle_disconnect result)

  -- `record_bytes`, which the supervisor calls between its waits
  unfoldable pub record_bytes : ℕ → ℕ → Inner W Q → Inner W Q
  record_bytes up down i = record i { status = record i.status { bytes_in = up; bytes_out = down } }

  -- Every state that the manager can reach, with the tasks that run.
  pub data Reached : Inner W Q → List Task → Type 0 where
    fresh : (channel : W) (events : Q) → Reached (new_inner channel events) []
    connects :
        (i : Inner W Q) (ts : List Task)
        → Reached i ts
        → Reached ((connect i).0) ((connect i).1 ++ ts)
    disconnects :
        (i : Inner W Q) (ts : List Task)
        → Reached i ts
        → Reached ((disconnect i).0) ((disconnect i).1 ++ ts)
    turns :
        (o : Outcome) (t : Task) (front back : List Task) (i : Inner W Q)
        → Reached i (front ++ (t ∷ back))
        → Reached ((turn o t i).0) (front ++ ((turn o t i).1 ++ back))
    counts :
        (up down : ℕ) (i : Inner W Q) (ts : List Task)
        → Reached i ts
        → Reached (record_bytes up down i) ts

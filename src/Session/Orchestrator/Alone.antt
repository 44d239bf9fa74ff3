-- ===== src/Session/Orchestrator/Alone.antt =====
-- What an attempt of daemon/src/session/mod.rs comes to that a disconnect overtakes, where nothing
-- else runs beside it.
use thisconnect.Prelude.{
  ℕ, zero, suc, ◌≡◌, refl, sym, ap, subst, Bool, false, List, [], ◌∷◌, ◌++◌, err, ==_self,
}
use thisconnect.Session.State.{
  SessionState, disconnecting, authenticating, SessionError, StateEvent, StateCell, advance,
  advance_with, force, state_eq, permits, is_busy, commit,
}
use thisconnect.Session.Orchestrator.{
  Inner, Task, starting, bringing_up, awaiting, established, committed, storing, abandoning,
  failing, closing, tearing_down, finishing, supervising, losing, burying, burying_all, Outcome,
  done, fails, Failure, cancelled, other, remove, user_facing,
}
use thisconnect.Session.Orchestrator.Turn.{
  start_openvpn, bring_up, settle_transition, settle_attempt, settle_commit, commit_attempt,
  record_failure, turn,
}

module _ {W Q : Type 0} (send : SessionState → W → W) (try_send : StateEvent → Q → Bool × Q) where
  -- So many turns of the first task.
  abbrev pub run : ℕ → Outcome → List Task → Inner W Q → Inner W Q × List Task
  run zero o ts i = (i, ts)
  run (suc n) o [] i = (i, [])
  run (suc n) o (t ∷ ts) i =
      run n o ((turn send try_send o t i).1 ++ ts) ((turn send try_send o t i).0)

  -- No task is left, just the given sessions are up, and a new one may begin.
  pub record IsOver (left : List ℕ) (after : Inner W Q × List Task) : Type 0 where
    pub ended : after.1 ≡ []
    pub gone : after.0.up ≡ left
    pub idle : is_busy (after.0.cell.current) ≡ false

  failed_over :
      (why : Failure) (i : Inner W Q)
      → i.cell.current ≡ disconnecting
      → is_busy ((record_failure send try_send why i).cell.current) ≡ false
  unfolding record_failure force commit state_eq is_busy
  failed_over (cancelled t) i h = rw h refl
  failed_over (other t) i h = rw h refl

  failed_up : (why : Failure) (i : Inner W Q) → (record_failure send try_send why i).up ≡ i.up
  unfolding record_failure
  failed_up (cancelled t) i = refl
  failed_up (other t) i = refl

  advance-refused :
      (next : SessionState) (c : StateCell W Q)
      → state_eq disconnecting next ≡ false
      → permits disconnecting next ≡ false
      → c.current ≡ disconnecting
      → advance send try_send next c ≡ (err (SessionError.illegal_transition disconnecting next), c)
  unfolding advance advance_with
  advance-refused next c differs refused h = rw (h, differs, refused) refl

  abbrev refusal : SessionState → Failure
  refusal next = other (user_facing (SessionError.illegal_transition disconnecting next))

  bring_up-refused :
      (r : ℕ) (i : Inner W Q)
      → i.cell.current ≡ disconnecting
      → bring_up send try_send r i ≡ (i, abandoning r (refusal authenticating) ∷ [])
  unfolding bring_up settle_transition state_eq permits
  bring_up-refused r i h =
      ap (λ m. settle_transition send try_send r m.0 (record i { cell = m.1 }))
        (advance-refused authenticating i.cell refl refl h)

  commit-refused :
      (r : ℕ) (i : Inner W Q)
      → i.cell.current ≡ disconnecting
      → commit_attempt send try_send r i ≡ (i, abandoning r (refusal SessionState.connected) ∷ [])
  unfolding commit_attempt settle_commit state_eq permits
  commit-refused r i h =
      ap (λ m. settle_commit send try_send r m.0 (record i { cell = m.1 }))
        (advance-refused SessionState.connected i.cell refl refl h)

  run-nothing : (n : ℕ) (o : Outcome) (i : Inner W Q) → run n o [] i ≡ (i, [])
  run-nothing zero o i = refl
  run-nothing (suc n) o i = refl

  -- Turns are left over where nothing is left to run.
  abandoned-IsOver :
      (spare : ℕ) (o : Outcome) (why : Failure) (r : ℕ) (i : Inner W Q)
      → i.cell.current ≡ disconnecting
      → IsOver (remove r i.up) (run (suc (suc spare)) o (abandoning r why ∷ []) i)
  unfolding turn
  abandoned-IsOver spare o why r i h =
      subst (IsOver (remove r i.up)) (sym (run-nothing spare o _))
        (record { ended = refl; gone = failed_up why _; idle = failed_over why _ h })

  brought-IsOver :
      (spare : ℕ) (o : Outcome) (r : ℕ) (i : Inner W Q)
      → i.cell.current ≡ disconnecting
      → IsOver (remove r i.up) (run (suc (suc (suc spare))) o (bringing_up r ∷ []) i)
  unfolding turn
  brought-IsOver spare o r i h =
      subst (λ m. IsOver (remove r i.up) (run (suc (suc spare)) o (m.1 ++ []) (m.0)))
        (sym (bring_up-refused r i h)) (abandoned-IsOver spare o (refusal authenticating) r i h)

  established-IsOver :
      (spare : ℕ) (o : Outcome) (r : ℕ) (i : Inner W Q)
      → i.cell.current ≡ disconnecting
      → IsOver (remove r i.up) (run (suc (suc (suc spare))) o (established r ∷ []) i)
  unfolding turn
  established-IsOver spare o r i h =
      subst (λ m. IsOver (remove r i.up) (run (suc (suc spare)) o (m.1 ++ []) (m.0)))
        (sym (commit-refused r i h))
        (abandoned-IsOver spare o (refusal SessionState.connected) r i h)

  -- The tasks of an attempt up to its commit, and what is up without the session that one holds.
  abbrev pub InFlight : Task → Type 0
  InFlight starting = Unit
  InFlight (bringing_up r) = Unit
  InFlight (awaiting r) = Unit
  InFlight (established r) = Unit
  InFlight (abandoning r why) = Unit
  InFlight (failing why) = Unit
  InFlight _ = ⊥

  abbrev pub without_own : Task → List ℕ → List ℕ
  without_own (bringing_up r) up = remove r up
  without_own (awaiting r) up = remove r up
  without_own (established r) up = remove r up
  without_own (abandoning r why) up = remove r up
  without_own _ up = up

  just_started : (r : ℕ) (up : List ℕ) → remove r (r ∷ up) ≡ up
  unfolding remove
  just_started r up = rw (==_self r) refl

  -- An attempt that a disconnect has overtaken, wherever before its commit it stands, tears down
  -- what it holds and ends in a state in which a new one may begin, whatever its waits come to,
  -- where no other task runs meanwhile.
  pub cancelled-IsOver :
      (o : Outcome) (t : Task) (i : Inner W Q)
      → InFlight t
      → i.cell.current ≡ disconnecting
      → IsOver (without_own t i.up) (run 4 o (t ∷ []) i)
  unfolding turn start_openvpn settle_attempt
  cancelled-IsOver done starting i f h =
      subst
        (λ up. IsOver up (
          run 3 done (bringing_up i.next ∷ [])
            (record i { up = i.next ∷ i.up; next = suc i.next })))
        (just_started i.next i.up)
        (brought-IsOver 0 done i.next (record i { up = i.next ∷ i.up; next = suc i.next }) h)
  cancelled-IsOver (fails why) starting i f h = record {
    ended = refl;
    gone = failed_up why i;
    idle = failed_over why i h;
  }
  cancelled-IsOver o (bringing_up r) i f h = brought-IsOver 1 o r i h
  cancelled-IsOver done (awaiting r) i f h = established-IsOver 0 done r i h
  cancelled-IsOver (fails why) (awaiting r) i f h = abandoned-IsOver 1 (fails why) why r i h
  cancelled-IsOver o (established r) i f h = established-IsOver 1 o r i h
  cancelled-IsOver o (abandoning r why) i f h = abandoned-IsOver 2 o why r i h
  cancelled-IsOver o (failing why) i f h = record {
    ended = refl;
    gone = failed_up why i;
    idle = failed_over why i h;
  }
  cancelled-IsOver o (committed r) i f h = elim f [ ]
  cancelled-IsOver o (storing r) i f h = elim f [ ]
  cancelled-IsOver o closing i f h = elim f [ ]
  cancelled-IsOver o (tearing_down r) i f h = elim f [ ]
  cancelled-IsOver o finishing i f h = elim f [ ]
  cancelled-IsOver o supervising i f h = elim f [ ]
  cancelled-IsOver o (losing why) i f h = elim f [ ]
  cancelled-IsOver o (burying r why) i f h = elim f [ ]
  cancelled-IsOver o (burying_all why) i f h = elim f [ ]

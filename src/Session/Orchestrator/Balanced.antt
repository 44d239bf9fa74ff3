-- ===== src/Session/Orchestrator/Balanced.antt =====
-- What one step of a task of daemon/src/session/mod.rs does to the sessions that are held.
use thisconnect.Prelude.{
  ℕ, suc, ◌+◌, ◌≤◌, ◌≡◌, refl, inl, inr, Bool, Option, none, some, List, [], ◌∷◌, arith, ◌==◌,
  Bool-cases, Result, ok, err,
}
use thisconnect.Prelude.Text.{Text}
use thisconnect.Session.State.{advance, authenticating, SessionState, SessionError, StateEvent}
use thisconnect.Session.Orchestrator.{
  Inner, Task, starting, bringing_up, awaiting, established, committed, storing, abandoning,
  failing, closing, tearing_down, finishing, supervising, losing, burying_all, burying, Outcome,
  done, fails, Failure, cancelled, other, remove, slot,
}
use thisconnect.Session.Orchestrator.Turn.{
  start_openvpn, settle_transition, bring_up, settle_attempt, settle_commit, commit_attempt,
  record_failure, finish_disconnect, take_to_close, take_to_bury, settle_loss, turn,
}
use thisconnect.Session.Orchestrator.Tally.{
  one, tally, held, held_all, tally-append, one_self, one_other, tally-remove,
}

module _ {W Q : Type 0} where
  -- What a session counts outside of a task: in the slot, and where it was dropped.
  abbrev pub outside : ℕ → Inner W Q → ℕ
  outside r i = tally r (slot i.active) + tally r i.dropped

  -- One step moves sessions and loses none.
  pub record IsBalanced (i : Inner W Q) (t : Task) (after : Inner W Q × List Task) : Type 0 where
    pub moved :
        (r : ℕ)
        → tally r (after.0.up) + (tally r (held t) + outside r i)
          ≡ tally r i.up + (tally r (held_all (after.1)) + outside r (after.0))
    pub drawn : (r : ℕ) → after.0.next ≤ r → tally r (after.0.up) ≡ 0
    pub once : (r : ℕ) → tally r (after.0.up) ≤ 1

  -- A step that leaves what is up, the slot and the dropped, and passes its session on.
  passed_on :
      (i j : Inner W Q) (t : Task) (us : List Task)
      → j.up ≡ i.up
      → j.next ≡ i.next
      → ((r : ℕ) → tally r (held t) + outside r i ≡ tally r (held_all us) + outside r j)
      → ((r : ℕ) → i.next ≤ r → tally r i.up ≡ 0)
      → ((r : ℕ) → tally r i.up ≤ 1)
      → IsBalanced i t (j, us)
  passed_on i j t us e f g h k = record {
    moved = λ r. rw e (omega (arith, g r));
    drawn = λ r l. rw e (h r (omega (arith, f, l)));
    once = λ r. rw e (k r);
  }

  torn_down :
      (q : ℕ) (i : Inner W Q) (t u : Task)
      → held t ≡ q ∷ []
      → held u ≡ []
      → 1 ≤ tally q i.up
      → ((r : ℕ) → i.next ≤ r → tally r i.up ≡ 0)
      → ((r : ℕ) → tally r i.up ≤ 1)
      → IsBalanced i t (record i { up = remove q i.up }, u ∷ [])
  torn_down q i t u e f there h k = record {
    moved = λ r. rw (e, f) (omega (arith, tally-remove r q i.up there));
    drawn = λ r l. omega (arith, tally-remove r q i.up there, h r l);
    once = λ r. omega (arith, tally-remove r q i.up there, k r);
  }

  drawn_new :
      (i : Inner W Q) (j : Inner W Q)
      → j.up ≡ i.next ∷ i.up
      → j.next ≡ suc i.next
      → ((r : ℕ) → outside r j ≡ outside r i)
      → ((r : ℕ) → i.next ≤ r → tally r i.up ≡ 0)
      → ((r : ℕ) → tally r i.up ≤ 1)
      → IsBalanced i starting (j, bringing_up i.next ∷ [])
  drawn_new i j e f g h k = record {
    moved = λ r. rw e (omega (arith, g r));
    drawn = λ r l.
        rw e
          (omega (arith, f, h r (omega (arith, f, l)), one_other r i.next (omega (arith, f, l))));
    once = λ r. rw e (elim (Bool-cases (i.next == r)) [
      | inl same ↦ rw same (omega (arith, h r (ground (arith, same))))
      | inr different ↦ rw different (omega (arith, k r))
    ]);
  }

module _ {W Q : Type 0} (send : SessionState → W → W) (try_send : StateEvent → Q → Bool × Q) where
  abbrev pub Drawn : Inner W Q → Type 0
  Drawn i = (r : ℕ) → i.next ≤ r → tally r i.up ≡ 0

  abbrev pub Once : Inner W Q → Type 0
  Once i = (r : ℕ) → tally r i.up ≤ 1

  -- What a task holds is up.
  abbrev pub HoldsUp : Inner W Q → Task → Type 0
  HoldsUp i t = (r : ℕ) → tally r (held t) ≤ tally r i.up

  transition-IsBalanced :
      (r : ℕ) (result : Result SessionError Unit) (i j : Inner W Q)
      → j.up ≡ i.up
      → j.next ≡ i.next
      → ((x : ℕ) → outside x i ≡ outside x j)
      → Drawn i
      → Once i
      → IsBalanced i (bringing_up r) (settle_transition send try_send r result j)
  unfolding settle_transition
  transition-IsBalanced r (ok u) i j e f g h k =
      passed_on i j (bringing_up r) (awaiting r ∷ []) e f (λ x. omega (arith, g x)) h k
  transition-IsBalanced r (err why) i j e f g h k =
      passed_on i j (bringing_up r) (abandoning r _ ∷ []) e f (λ x. omega (arith, g x)) h k

  commit-IsBalanced :
      (r : ℕ) (result : Result SessionError Unit) (i j : Inner W Q)
      → j.up ≡ i.up
      → j.next ≡ i.next
      → ((x : ℕ) → outside x i ≡ outside x j)
      → Drawn i
      → Once i
      → IsBalanced i (established r) (settle_commit send try_send r result j)
  unfolding settle_commit
  commit-IsBalanced r (ok u) i j e f g h k =
      passed_on i j (established r) (committed r ∷ []) e f (λ x. omega (arith, g x)) h k
  commit-IsBalanced r (err why) i j e f g h k =
      passed_on i j (established r) (abandoning r _ ∷ []) e f (λ x. omega (arith, g x)) h k

  closing-IsBalanced :
      (m : Option ℕ) (i : Inner W Q)
      → i.active ≡ m
      → Drawn i
      → Once i
      → IsBalanced i closing (take_to_close send try_send m i)
  unfolding take_to_close
  closing-IsBalanced none i e h k =
      passed_on i i closing (finishing ∷ []) refl refl (λ x. omega arith) h k
  closing-IsBalanced (some r) i e h k =
      passed_on i (record i { active = none }) closing (tearing_down r ∷ []) refl refl
        (λ x. rw e (omega arith)) h k

  losing-IsBalanced :
      (why : Text) (m : Option ℕ) (i : Inner W Q)
      → i.active ≡ m
      → Drawn i
      → Once i
      → IsBalanced i (losing why) (take_to_bury send try_send why m i)
  unfolding take_to_bury
  losing-IsBalanced why none i e h k =
      passed_on i i (losing why) (burying_all why ∷ []) refl refl (λ x. omega arith) h k
  losing-IsBalanced why (some r) i e h k =
      passed_on i (record i { active = none }) (losing why) (burying r why ∷ []) refl refl
        (λ x. rw e (omega arith)) h k

  failure-IsBalanced :
      (why : Failure) (i : Inner W Q)
      → Drawn i
      → Once i
      → IsBalanced i (failing why) (record_failure send try_send why i, [])
  unfolding record_failure
  failure-IsBalanced (cancelled t) i h k =
      passed_on i _ (failing (cancelled t)) [] refl refl (λ x. omega arith) h k
  failure-IsBalanced (other t) i h k =
      passed_on i _ (failing (other t)) [] refl refl (λ x. omega arith) h k

  start-IsBalanced :
      (o : Outcome) (i : Inner W Q)
      → Drawn i
      → Once i
      → IsBalanced i starting (start_openvpn send try_send o i)
  unfolding start_openvpn
  start-IsBalanced done i h k = drawn_new i _ refl refl (λ r. refl) h k
  start-IsBalanced (fails why) i h k =
      passed_on i i starting (failing why ∷ []) refl refl (λ x. omega arith) h k

  attempt-IsBalanced :
      (r : ℕ) (o : Outcome) (i : Inner W Q)
      → Drawn i
      → Once i
      → IsBalanced i (awaiting r) (settle_attempt send try_send r o i)
  unfolding settle_attempt
  attempt-IsBalanced r done i h k =
      passed_on i i (awaiting r) (established r ∷ []) refl refl (λ x. omega arith) h k
  attempt-IsBalanced r (fails why) i h k =
      passed_on i i (awaiting r) (abandoning r why ∷ []) refl refl (λ x. omega arith) h k

  supervise-IsBalanced :
      (o : Outcome) (i : Inner W Q)
      → Drawn i
      → Once i
      → IsBalanced i supervising (turn send try_send o supervising i)
  unfolding turn
  supervise-IsBalanced done i h k =
      passed_on i i supervising (supervising ∷ []) refl refl (λ x. omega arith) h k
  supervise-IsBalanced (fails why) i h k =
      passed_on i _ supervising (losing _ ∷ []) refl refl (λ x. omega arith) h k

  holds_one : (q : ℕ) (i : Inner W Q) → ((r : ℕ) → one r q + 0 ≤ tally r i.up) → 1 ≤ tally q i.up
  holds_one q i h = omega (arith, h q, one_self q)

  pub turn-IsBalanced :
      (o : Outcome) (t : Task) (i : Inner W Q)
      → HoldsUp i t
      → Drawn i
      → Once i
      → IsBalanced i t (turn send try_send o t i)
  unfolding turn bring_up commit_attempt finish_disconnect settle_loss
  turn-IsBalanced o starting i up h k = start-IsBalanced o i h k
  turn-IsBalanced o (bringing_up r) i up h k =
      transition-IsBalanced r (advance send try_send authenticating i.cell).0 i
        (record i { cell = (advance send try_send authenticating i.cell).1 }) refl refl (λ x. refl)
        h k
  turn-IsBalanced o (awaiting r) i up h k = attempt-IsBalanced r o i h k
  turn-IsBalanced o (established r) i up h k =
      commit-IsBalanced r (advance send try_send SessionState.connected i.cell).0 i
        (record i { cell = (advance send try_send SessionState.connected i.cell).1 }) refl refl
        (λ x. refl) h k
  turn-IsBalanced o (committed r) i up h k =
      passed_on i _ (committed r) (storing r ∷ []) refl refl (λ x. omega arith) h k
  turn-IsBalanced o (storing r) i up h k =
      passed_on i _ (storing r) (supervising ∷ []) refl refl
        (λ x. omega (arith, tally-append x (slot i.active) i.dropped)) h k
  turn-IsBalanced o (abandoning r why) i up h k =
      torn_down r i (abandoning r why) (failing why) refl refl (holds_one r i up) h k
  turn-IsBalanced o (failing why) i up h k = failure-IsBalanced why i h k
  turn-IsBalanced o closing i up h k = closing-IsBalanced i.active i refl h k
  turn-IsBalanced o (tearing_down r) i up h k =
      torn_down r i (tearing_down r) finishing refl refl (holds_one r i up) h k
  turn-IsBalanced o finishing i up h k = passed_on i _ finishing [] refl refl (λ x. omega arith) h k
  turn-IsBalanced o supervising i up h k = supervise-IsBalanced o i h k
  turn-IsBalanced o (losing why) i up h k = losing-IsBalanced why i.active i refl h k
  turn-IsBalanced o (burying r why) i up h k =
      torn_down r i (burying r why) (burying_all why) refl refl (holds_one r i up) h k
  turn-IsBalanced o (burying_all why) i up h k =
      passed_on i _ (burying_all why) [] refl refl (λ x. omega arith) h k

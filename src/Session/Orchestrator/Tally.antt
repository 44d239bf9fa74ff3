-- ===== src/Session/Orchestrator/Tally.antt =====
-- How often a session of daemon/src/session/mod.rs is held.
use thisconnect.Prelude.{
  ℕ, ◌+◌, ◌≤◌, ◌<◌, ◌≡◌, ap, inl, inr, List, [], ◌∷◌, ◌++◌, arith, ◌==◌, if◌then◌else◌, Bool-cases,
  ==_iff,
}
use thisconnect.Session.Orchestrator.{
  Task, bringing_up, awaiting, established, committed, storing, abandoning, tearing_down, burying,
  remove,
}

-- How often a session is in a list.
abbrev pub one : ℕ → ℕ → ℕ
one r x = if x == r then 1 else 0

abbrev pub tally : ℕ → List ℕ → ℕ
tally r [] = 0
tally r (x ∷ xs) = one r x + tally r xs

-- The session that a task holds.
abbrev pub held : Task → List ℕ
held (bringing_up r) = r ∷ []
held (awaiting r) = r ∷ []
held (established r) = r ∷ []
held (committed r) = r ∷ []
held (storing r) = r ∷ []
held (abandoning r why) = r ∷ []
held (tearing_down r) = r ∷ []
held (burying r why) = r ∷ []
held _ = []

abbrev pub held_all : List Task → List ℕ
held_all [] = []
held_all (t ∷ ts) = held t ++ held_all ts

pub tally-append : (r : ℕ) (xs ys : List ℕ) → tally r (xs ++ ys) ≡ tally r xs + tally r ys
tally-append r [] ys = omega arith
tally-append r (x ∷ xs) ys = omega (arith, tally-append r xs ys)

pub held_all-append :
    (r : ℕ) (ts us : List Task)
    → tally r (held_all (ts ++ us)) ≡ tally r (held_all ts) + tally r (held_all us)
held_all-append r [] us = omega arith
held_all-append r (t ∷ ts) us = omega (
  arith,
  held_all-append r ts us,
  tally-append r (held t) (held_all (ts ++ us)),
  tally-append r (held t) (held_all ts),
)

pub one_self : (r : ℕ) → one r r ≡ 1
one_self r = ground arith

pub one_other : (r x : ℕ) → x < r → one r x ≡ 0
one_other r x h = ground arith

-- One of a session is gone.
pub tally-remove :
    (r q : ℕ) (xs : List ℕ) → 1 ≤ tally q xs → tally r (remove q xs) + one r q ≡ tally r xs
unfolding remove
tally-remove r q [] h = let k : ⊥ = omega (arith, h) in elim k [ ]
tally-remove r q (x ∷ xs) h = elim (Bool-cases (x == q)) [
  | inl same ↦ rw same (omega (arith, ap (one r) ((==_iff x q).0 same)))
  | inr different ↦ rw different (omega (arith, tally-remove r q xs (ground (arith, h, different))))
]

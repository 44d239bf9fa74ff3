-- ===== src/Policy/Plan/Order.antt =====
-- `Plan::new` of daemon/src/policy/plan.rs: what the test on adjacent ranks says of every pair.
use thisconnect.Prelude.{
  ℕ, true, false, ◌≡◌, ◌<◌, ◌≤◌, ◌↔◌, inl, inr, refl, List, [], ◌∷◌, ok, All, keep, arith,
  Bool-cases,
}
use thisconnect.Policy.Error.{StepKind}
use thisconnect.Policy.Plan.{
  Family, v4, v6, Step, Plan, rank, same_family, kinds, has_descent, out_of_order, new,
}

abbrev Above : ℕ → List StepKind → Type 0
Above r = All (λ k. r < rank k)

abbrev Increasing : List StepKind → Type 0
Increasing [] = Unit
Increasing (k ∷ rest) = Above (rank k) rest × Increasing rest

Above-mono : (r r' : ℕ) (ks : List StepKind) → r ≤ r' → Above r' ks → Above r ks
Above-mono r r' [] h a = tt
Above-mono r r' (k ∷ ks) h a = (omega arith, Above-mono r r' ks h a.1)

has_descent-Increasing : (ks : List StepKind) → has_descent ks ≡ false → Increasing ks
unfolding has_descent
has_descent-Increasing [] h = tt
has_descent-Increasing (a ∷ []) h = (tt, tt)
has_descent-Increasing (a ∷ b ∷ rest) h =
    let lower : rank a < rank b = ground arith in
    let later = has_descent-Increasing (b ∷ rest) (ground arith) in
    ((lower, Above-mono (rank a) (rank b) rest (omega arith) later.0), later)

Increasing-has_descent : (ks : List StepKind) → Increasing ks → has_descent ks ≡ false
unfolding has_descent
Increasing-has_descent [] h = refl
Increasing-has_descent (a ∷ []) h = refl
Increasing-has_descent (a ∷ b ∷ rest) h =
    ground (arith, Increasing-has_descent (b ∷ rest) h.1, h.0.0)

-- Within family `f`, later steps rank above `r`.
abbrev LaterAbove : Family → ℕ → List Step → Type 0
LaterAbove f r = All (λ t. same_family t.family f ≡ true → r < rank t.kind)

abbrev AscendsIn : Family → List Step → Type 0
AscendsIn f [] = Unit
AscendsIn f (s ∷ rest) =
    (same_family s.family f ≡ true → LaterAbove f (rank s.kind) rest) × AscendsIn f rest

-- Of two steps of one family, the later one has the greater rank.
abbrev pub Ascends : List Step → Type 0
Ascends [] = Unit
Ascends (s ∷ rest) = LaterAbove s.family (rank s.kind) rest × Ascends rest

module _ (f : Family) where
  abbrev of_family : List Step → List Step
  of_family = keep (λ s. same_family s.family f)

  Above-LaterAbove : (r : ℕ) (ss : List Step) → Above r (kinds (of_family ss)) → LaterAbove f r ss
  Above-LaterAbove r [] h = tt
  Above-LaterAbove r (s ∷ ss) h = elim (Bool-cases (same_family s.family f)) [
    | inl e ↦ let k = rw (e, kinds) at h in (λ _. k.0, Above-LaterAbove r ss k.1)
    | inr e ↦ let k = rw (e, kinds) at h in (λ e'. cc, Above-LaterAbove r ss k)
  ]

  LaterAbove-Above : (r : ℕ) (ss : List Step) → LaterAbove f r ss → Above r (kinds (of_family ss))
  LaterAbove-Above r [] h = tt
  LaterAbove-Above r (s ∷ ss) h = elim (Bool-cases (same_family s.family f)) [
    | inl e ↦ rw (e, kinds) (h.0 e, LaterAbove-Above r ss h.1)
    | inr e ↦ rw (e, kinds) (LaterAbove-Above r ss h.1)
  ]

  Increasing-AscendsIn : (ss : List Step) → Increasing (kinds (of_family ss)) → AscendsIn f ss
  Increasing-AscendsIn [] h = tt
  Increasing-AscendsIn (s ∷ ss) h = elim (Bool-cases (same_family s.family f)) [
    | inl e ↦
        let k = rw (e, Increasing, kinds) at h in
        (λ _. Above-LaterAbove (rank s.kind) ss k.0, Increasing-AscendsIn ss k.1)
    | inr e ↦ let k = rw e at h in (λ e'. cc, Increasing-AscendsIn ss k)
  ]

  AscendsIn-Increasing : (ss : List Step) → AscendsIn f ss → Increasing (kinds (of_family ss))
  AscendsIn-Increasing [] h = tt
  AscendsIn-Increasing (s ∷ ss) h = elim (Bool-cases (same_family s.family f)) [
    | inl e ↦
        rw (e, Increasing, kinds)
          (LaterAbove-Above (rank s.kind) ss (h.0 e), AscendsIn-Increasing ss h.1)
    | inr e ↦ rw (e, Increasing, kinds) (AscendsIn-Increasing ss h.1)
  ]

same_family-eq : (a b : Family) → same_family a b ≡ true → a ≡ b
same_family-eq a b h = ground arith

same_family_self : (a : Family) → same_family a a ≡ true
same_family_self v4 = refl
same_family_self v6 = refl

by_family : (f : Family) → (P : Family → Type 0) → P v4 → P v6 → P f
by_family v4 P a b = a
by_family v6 P a b = b

AscendsIn-Ascends : (ss : List Step) → AscendsIn v4 ss → AscendsIn v6 ss → Ascends ss
AscendsIn-Ascends [] h k = tt
AscendsIn-Ascends (s ∷ ss) h k = (
  by_family s.family (λ g. same_family s.family g ≡ true → LaterAbove g (rank s.kind) ss) h.0 k.0
      (same_family_self s.family),
  AscendsIn-Ascends ss h.1 k.1,
)

Ascends-AscendsIn : (f : Family) (ss : List Step) → Ascends ss → AscendsIn f ss
Ascends-AscendsIn f [] h = tt
Ascends-AscendsIn f (s ∷ ss) h =
    (λ e. rw (← same_family-eq s.family f e) h.0, Ascends-AscendsIn f ss h.1)

-- A plan is accepted, with its steps unchanged, exactly when of any two steps of one address
-- family, adjacent or not, the earlier has the smaller rank: backstop, floor, rule, tunnel route.
pub new-iff-Ascends :
    (steps : List Step) (p : Plan) → (new steps ≡ ok p) ↔ ((p.steps ≡ steps) × Ascends steps)
unfolding new
new-iff-Ascends steps p = (forward, backward)
  where
    forward : new steps ≡ ok p → (p.steps ≡ steps) × Ascends steps
    forward h = (
      ground arith,
      AscendsIn-Ascends steps
          (Increasing-AscendsIn v4 steps
            (has_descent-Increasing _ (unfold new out_of_order in ground arith)))
          (Increasing-AscendsIn v6 steps
            (has_descent-Increasing _ (unfold new out_of_order in ground arith))),
    )

    backward : (p.steps ≡ steps) × Ascends steps → new steps ≡ ok p
    backward h = rw (
      Increasing-has_descent _ (AscendsIn-Increasing v4 steps (Ascends-AscendsIn v4 steps h.1)),
      Increasing-has_descent _ (AscendsIn-Increasing v6 steps (Ascends-AscendsIn v6 steps h.1)),
      ← h.0,
    )

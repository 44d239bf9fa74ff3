-- ===== src/Policy/Plan/Reassert.antt =====
-- `reassert` of daemon/src/policy/plan.rs: what it touches, and what it reports.
use thisconnect.Prelude.{
  ℕ, ◌+◌, ◌≤◌, ◌≡◌, refl, sym, ap, subst, ◌∙◌, ◌↔◌, Bool, true, false, Option, none, some, List, [],
  ◌∷◌, arith, if◌then◌else◌, Result, ok, err, is_ok, length, length-append,
}
use thisconnect.Policy.Error.{PolicyError}
use thisconnect.Policy.Plan.{
  Step, Plan, Check, Runner, evaluate, Reassertion, is_quiet, still_standing, restore,
  reassert_step, reassert_from, reassert,
}

module _ {W : Type 0} (run : Runner W) where
  -- The read-back of a step exists and confirms it.
  abbrev pub Stands : Option Check → W → W → Type 0
  Stands none w w' = ⊥
  Stands (some c) w w' = evaluate run c w ≡ (ok tt, w')

  -- Every step was probed, in order, and each probe confirmed it: nothing but probes was run.
  abbrev pub AllStand : List Step → W → W → Type 0
  AllStand [] w w' = w ≡ w'
  AllStand (s ∷ rest) w w' = (w1 : W) × Stands s.after_apply w w1 × AllStand rest w1 w'

  abbrev size : Reassertion → ℕ
  size r = length r.restored + length r.failed

  reassert_step-size :
      (s : Step) (o : Reassertion) (w : W)
      → (size o ≤ size (reassert_step run s o w).0)
        × (size (reassert_step run s o w).0 ≤ size o + 1)
  unfolding reassert_step
  reassert_step-size s o w =
      ground (arith, length-append o.restored (s.kind ∷ []), length-append o.failed (s.kind ∷ []))

  size_mono :
      (ss : List Step) (o : Reassertion) (w : W) → size o ≤ size (reassert_from run ss o w).0
  unfolding reassert_from
  size_mono [] o w = omega arith
  size_mono (s ∷ ss) o w =
      let (o', w') = reassert_step run s o w in
      omega (arith, (reassert_step-size s o w).0, size_mono ss o' w')

  Stands-still_standing :
      (c : Option Check) (w w' : W) → Stands c w w' → still_standing run c w ≡ (true, w')
  unfolding still_standing
  Stands-still_standing (some c) w w' h = rw h
  Stands-still_standing none w w' h = absurd h

  still_standing-Stands :
      (c : Option Check) (w w' : W) → still_standing run c w ≡ (true, w') → Stands c w w'
  unfolding still_standing
  still_standing-Stands none w w' h = cc
  still_standing-Stands (some c) w w' h = go (evaluate run c w).0 (evaluate run c w).1 refl h
    where
      go :
          (r : Result PolicyError Unit) (w1 : W)
          → evaluate run c w ≡ (r, w1)
          → ◌≡◌ {A = Bool × W} (is_ok r, w1) (true, w')
          → evaluate run c w ≡ (ok tt, w')
      go (ok _) w1 q k = q ∙ ap (λ (x : Bool × W). (ok tt, x.1)) k
      go (err e) w1 q k = cc

  AllStand-reassert_from :
      (ss : List Step) (o : Reassertion) (w w' : W)
      → AllStand ss w w'
      → reassert_from run ss o w ≡ (o, w')
  unfolding reassert_from reassert_step
  AllStand-reassert_from [] o w w' h = ap (λ (v : W). (o, v)) h
  AllStand-reassert_from (s ∷ ss) o w w' (w1, stands, more) =
      ap
        (λ (x : Bool × W).
          let (o', v) = (if x.0 then (o, x.1) else restore run s o x.1) in
          reassert_from run ss o' v)
        (Stands-still_standing s.after_apply w w1 stands)
      ∙ AllStand-reassert_from ss o w1 w' more

  restore-size : (s : Step) (o : Reassertion) (w : W) → size (restore run s o w).0 ≡ size o + 1
  restore-size s o w =
      ground (arith, length-append o.restored (s.kind ∷ []), length-append o.failed (s.kind ∷ []))

  reassert_from-AllStand :
      (ss : List Step) (o : Reassertion) (w : W)
      → size (reassert_from run ss o w).0 ≡ size o
      → AllStand ss w (reassert_from run ss o w).1
  unfolding reassert_from reassert_step still_standing
  reassert_from-AllStand [] o w h = refl
  reassert_from-AllStand (s ∷ ss) o w h =
      go (still_standing run s.after_apply w).0 (still_standing run s.after_apply w).1 refl
        (λ (w1 : W) (k : size (reassert_from run ss o w1).0 ≡ size o).
          reassert_from-AllStand ss o w1 k)
        h
    where
      turn : Bool → W → Reassertion × W
      turn b w1 = if b then (o, w1) else restore run s o w1

      go :
          (b : Bool) (w1 : W)
          → still_standing run s.after_apply w ≡ (b, w1)
          → ((v : W)
              → size (reassert_from run ss o v).0 ≡ size o
              → AllStand ss v (reassert_from run ss o v).1)
          → size (reassert_from run ss (turn b w1).0 (turn b w1).1).0 ≡ size o
          → AllStand (s ∷ ss) w (reassert_from run ss (turn b w1).0 (turn b w1).1).1
      go true w1 q ih k = (w1, still_standing-Stands s.after_apply w w1 q, ih w1 k)
      go false w1 q ih k = absurd (
          omega (
            arith,
            restore-size s o w1,
            size_mono ss (restore run s o w1).0 (restore run s o w1).1,
          ))

  size-is_quiet : (o : Reassertion) → is_quiet o ≡ true → size o ≡ 0
  size-is_quiet o h = ground arith

  -- A re-assertion pass reports nothing exactly when every step has a read-back and each, in
  -- order, confirmed its step, with nothing but those probes run.
  pub reassert-quiet_iff :
      (p : Plan) (w w' : W) (o : Reassertion)
      → reassert run p w ≡ (o, w')
      → (is_quiet o ≡ true) ↔ AllStand p.steps w w'
  unfolding reassert
  reassert-quiet_iff p w w' o h = (
    λ quiet. subst (AllStand p.steps w) (ap (λ (x : Reassertion × W). x.1) h) (
        reassert_from-AllStand p.steps _ w
          (ap (λ (x : Reassertion × W). size x.0) h ∙ size-is_quiet o quiet)),
    λ stand.
        ap (λ (x : Reassertion × W). is_quiet x.0)
          (sym h ∙ AllStand-reassert_from p.steps _ w w' stand),
  )

-- ===== src/Proxy/Http/Head/Terminator.antt =====
-- Where `find_terminator` of proxy/src/http.rs finds the end of a request head.
use thisconnect.Prelude.{
  some-injective, ℕ, suc, ◌+◌, ◌≤◌, ◌<◌, ◌≡◌, refl, sym, ap, ap₂, ◌⊎◌, inl, inr, Bool, true, false,
  ◌&&◌, Option, none, some, [], ◌∷◌, ◌++◌, arith, ltb, leb, ◌==◌, if◌then◌else◌, Bool-cases, leb→le,
  ==_iff, and-left, and-right, length, take, drop,
}
use thisconnect.Prelude.Text.{Text, Bytes, starts_with}
use thisconnect.Proxy.Http.Head.{terminator, position_of, find_terminator}

step_parts :
    (b : Bool) (o : Option ℕ) (e : ℕ)
    → (if b then some 0 else elim o [ none ↦ none | some i ↦ some (suc i) ]) ≡ some e
    → ((b ≡ true) × (e ≡ 0)) ⊎ ((b ≡ false) × ((i : ℕ) × (o ≡ some i) × (e ≡ suc i)))
step_parts true o e h = inl (refl, sym (some-injective h))
step_parts false none e h = cc
step_parts false (some i) e h = inr (refl, (i, refl, sym (some-injective h)))

starts_with-append : (p s t : Text) → starts_with p s ≡ true → starts_with p (s ++ t) ≡ true
unfolding starts_with
starts_with-append [] s t h = refl
starts_with-append (c ∷ p) [] t h = cc
starts_with-append (c ∷ p) (d ∷ s) t h =
    rw (and-left (c == d) (starts_with p s) h, starts_with-append p s t (and-right (c == d) _ h))
      refl

starts_with-drop : (p s : Text) → starts_with p s ≡ true → s ≡ p ++ drop (length p) s
unfolding starts_with
starts_with-drop [] s h = refl
starts_with-drop (c ∷ p) [] h = cc
starts_with-drop (c ∷ p) (d ∷ s) h =
    let same = (==_iff c d).0 (and-left (c == d) (starts_with p s) h) in
    ap₂ (λ (x : ℕ) (xs : Text). x ∷ xs) (sym same) (starts_with-drop p s (and-right (c == d) _ h))

pub past_suc : (i : ℕ) → suc i + 4 ≡ suc (i + 4)
past_suc i = omega arith

pub position_of-splits :
    (s : Bytes) (e : ℕ)
    → position_of s ≡ some e
    → (s ≡ take e s ++ (terminator ++ drop (e + 4) s)) × (length (take e s) ≡ e)
unfolding position_of
position_of-splits [] e h = cc
position_of-splits (c ∷ s) e h =
    elim (step_parts (starts_with terminator (c ∷ s)) (position_of s) e h) [
      | inl (k, z) ↦ rw z (starts_with-drop terminator (c ∷ s) k, refl)
      | inr (k, (i, o, z)) ↦
          let (whole, sized) = position_of-splits s i o in
          rw (z, past_suc i) (ap (◌∷◌ c) whole, ap suc sized)
    ]

none_parts :
    (b : Bool) (o : Option ℕ)
    → (if b then some 0 else elim o [ none ↦ none | some i ↦ some (suc i) ]) ≡ none
    → (b ≡ false) × (o ≡ none)
none_parts true o h = cc
none_parts false none h = (refl, refl)
none_parts false (some i) h = cc

starts_with-le : (p s : Text) → starts_with p s ≡ true → length p ≤ length s
unfolding starts_with
starts_with-le [] s h = omega arith
starts_with-le (c ∷ p) [] h = cc
starts_with-le (c ∷ p) (d ∷ s) h = omega (arith, starts_with-le p s (and-right (c == d) _ h))

-- Only the first characters of a text decide how it starts.
starts_with-long : (p s t : Text) → length p ≤ length s → starts_with p (s ++ t) ≡ starts_with p s
unfolding starts_with
starts_with-long [] s t h = refl
starts_with-long (c ∷ p) [] t h = let k : ⊥ = omega (arith, h) in elim k [ ]
starts_with-long (c ∷ p) (d ∷ s) t h =
    ap (λ b. c == d && b) (starts_with-long p s t (omega (arith, h)))

position_of-le : (s : Bytes) (e : ℕ) → position_of s ≡ some e → e + 4 ≤ length s
unfolding position_of
position_of-le [] e h = cc
position_of-le (c ∷ s) e h =
    elim (step_parts (starts_with terminator (c ∷ s)) (position_of s) e h) [
      | inl (k, z) ↦ omega (arith, z, starts_with-le terminator (c ∷ s) k)
      | inr (k, (i, o, z)) ↦ omega (arith, z, position_of-le s i o)
    ]

pub position_of-append :
    (s t : Bytes) (e : ℕ) → position_of s ≡ some e → position_of (s ++ t) ≡ some e
unfolding position_of
position_of-append [] t e h = cc
position_of-append (c ∷ s) t e h =
    elim (step_parts (starts_with terminator (c ∷ s)) (position_of s) e h) [
      | inl (k, z) ↦ rw (starts_with-append terminator (c ∷ s) t k, z) refl
      | inr (k, (i, o, z)) ↦
          rw
            (
              starts_with-long terminator (c ∷ s) t (omega (arith, position_of-le s i o)),
              k,
              position_of-append s t i o,
              z,
            )
            refl
    ]

-- Where the terminator is in what came later, it reaches past what was there.
pub position_of-short :
    (s t : Bytes) (e : ℕ) → position_of (s ++ t) ≡ some e → position_of s ≡ none → length s < e + 4
unfolding position_of
position_of-short [] t e h k = omega arith
position_of-short (c ∷ s) t e h k =
    let (unstarted, nowhere) = none_parts (starts_with terminator (c ∷ s)) (position_of s) k in
    elim (step_parts (starts_with terminator (c ∷ (s ++ t))) (position_of (s ++ t)) e h) [
      | inl (started, z) ↦ elim (Bool-cases (leb 4 (length (c ∷ s)))) [
        | inl long ↦
            let same = starts_with-long terminator (c ∷ s) t (leb→le 4 (length (c ∷ s)) long) in
            let k : ⊥ = ground (arith, same, started, unstarted) in elim k [ ]
        | inr short ↦ ground (arith, short)
      ]
      | inr (started, (i, o, z)) ↦ omega (arith, z, position_of-short s t i o nowhere)
    ]

pub find_terminator-position_of : (s : Bytes) → find_terminator s ≡ position_of s
unfolding find_terminator
find_terminator-position_of s = go (Bool-cases (ltb (length s) 4)) (position_of s) refl
  where
    go :
        (ltb (length s) 4 ≡ true) ⊎ (ltb (length s) 4 ≡ false)
        → (o : Option ℕ) → position_of s ≡ o
        → (if ltb (length s) 4 then none else position_of s) ≡ position_of s
    go (inl short) none e = rw (short, e) refl
    go (inl short) (some i) e =
        let k : ⊥ = ground (arith, position_of-le s i e, short) in elim k [ ]
    go (inr long) o e = rw long refl

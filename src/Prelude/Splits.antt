-- ===== src/Prelude/Splits.antt =====
-- A text that `split_once` or `rsplit_once` cut is its two sides with the character between them.
use thisconnect.Prelude.{
  if_parts, some-injective, ℕ, ◌≡◌, refl, sym, ap, ◌⊎◌, inl, inr, Bool, true, false, Option, none,
  some, [], ◌∷◌, ◌++◌, arith, ◌==◌, if◌then◌else◌, ==_iff, ==_self, any,
}
use thisconnect.Prelude.Text.{Text, strip_prefix}
use thisconnect.Prelude.Split.{split_once, rsplit_once}

-- A cut at the head of a text, or one behind it.
abbrev Cut : ℕ → Text → Bool → Option (Text × Text) → Text → Text → Type 0
Cut x s b o front tail =
    ((b ≡ true) × (front ≡ []) × (tail ≡ s))
    ⊎ ((behind : Text) × (o ≡ some (behind, tail)) × (front ≡ x ∷ behind))

front_parts :
    (x : ℕ) (s : Text) (b : Bool) (o : Option (Text × Text)) (front tail : Text)
    → ◌≡◌ {A = Option (Text × Text)}
        (if b then some ([], s) else elim o [ none ↦ none | some (f, t) ↦ some (x ∷ f, t) ])
        (some (front, tail))
    → Cut x s b o front tail
front_parts x s true o front tail h =
    let same = some-injective h in inl (refl, ap (λ p. p.0) (sym same), ap (λ p. p.1) (sym same))
front_parts x s false none front tail h = cc
front_parts x s false (some (f, t)) front tail h =
    let same = some-injective h in
    inr (f, ap (λ y. some (f, y)) (ap (λ p. p.1) same), ap (λ p. p.0) (sym same))

back_parts :
    (x : ℕ) (s : Text) (b : Bool) (o : Option (Text × Text)) (front tail : Text)
    → ◌≡◌ {A = Option (Text × Text)}
        (elim o [ some (f, t) ↦ some (x ∷ f, t) | none ↦ if b then some ([], s) else none ])
        (some (front, tail))
    → Cut x s b o front tail
back_parts x s true none front tail h =
    let same = some-injective h in inl (refl, ap (λ p. p.0) (sym same), ap (λ p. p.1) (sym same))
back_parts x s false none front tail h = cc
back_parts x s b (some (f, t)) front tail h =
    let same = some-injective h in
    inr (f, ap (λ y. some (f, y)) (ap (λ p. p.1) same), ap (λ p. p.0) (sym same))

cut_here :
    (c x : ℕ) (s front tail : Text)
    → (x == c) ≡ true
    → front ≡ []
    → tail ≡ s
    → ◌≡◌ {A = Text} (x ∷ s) (front ++ (c ∷ tail))
cut_here c x s front tail b e f = rw (e, f, (==_iff x c).0 b) refl

cut_behind :
    (c x : ℕ) (s front behind tail : Text)
    → s ≡ behind ++ (c ∷ tail)
    → front ≡ x ∷ behind
    → ◌≡◌ {A = Text} (x ∷ s) (front ++ (c ∷ tail))
cut_behind c x s front behind tail h e = rw (h, e) refl

pub split_once-splits :
    (c : ℕ) (s front tail : Text) → split_once c s ≡ some (front, tail) → s ≡ front ++ (c ∷ tail)
unfolding split_once
split_once-splits c [] front tail h = cc
split_once-splits c (x ∷ s) front tail h =
    elim (front_parts x s (x == c) (split_once c s) front tail h) [
      | inl (b, e, f) ↦ cut_here c x s front tail b e f
      | inr (behind, o, e) ↦
          cut_behind c x s front behind tail (split_once-splits c s behind tail o) e
    ]

pub rsplit_once-splits :
    (c : ℕ) (s front tail : Text) → rsplit_once c s ≡ some (front, tail) → s ≡ front ++ (c ∷ tail)
unfolding rsplit_once
rsplit_once-splits c [] front tail h = cc
rsplit_once-splits c (x ∷ s) front tail h =
    elim (back_parts x s (x == c) (rsplit_once c s) front tail h) [
      | inl (b, e, f) ↦ cut_here c x s front tail b e f
      | inr (behind, o, e) ↦
          cut_behind c x s front behind tail (rsplit_once-splits c s behind tail o) e
    ]

-- A character that the text does not hold behind the cut is found there.
pub split_once-append :
    (c : ℕ) (front tail : Text)
    → any (λ x. x == c) front ≡ false
    → split_once c (front ++ (c ∷ tail)) ≡ some (front, tail)
unfolding split_once
split_once-append c [] tail h = rw (==_self c) refl
split_once-append c (x ∷ front) tail h =
    let other : (x == c) ≡ false = ground (arith, h) in
    rw (other, split_once-append c front tail (ground (arith, h))) refl

none_behind : (c : ℕ) (tail : Text) → any (λ x. x == c) tail ≡ false → rsplit_once c tail ≡ none
unfolding rsplit_once
none_behind c [] h = refl
none_behind c (x ∷ tail) h =
    let other : (x == c) ≡ false = ground (arith, h) in
    rw (none_behind c tail (ground (arith, h)), other) refl

pub rsplit_once-append :
    (c : ℕ) (front tail : Text)
    → any (λ x. x == c) tail ≡ false
    → rsplit_once c (front ++ (c ∷ tail)) ≡ some (front, tail)
unfolding rsplit_once
rsplit_once-append c [] tail h = rw (none_behind c tail h, ==_self c) refl
rsplit_once-append c (x ∷ front) tail h = rw (rsplit_once-append c front tail h) refl

pub strip_prefix-splits : (p s rest : Text) → strip_prefix p s ≡ some rest → s ≡ p ++ rest
unfolding strip_prefix
strip_prefix-splits [] s rest h = some-injective h
strip_prefix-splits (c ∷ p) [] rest h = cc
strip_prefix-splits (c ∷ p) (d ∷ s) rest h = elim (if_parts (c == d) (strip_prefix p s) none _ h) [
  | inl (b, k) ↦ rw ((==_iff c d).0 b, strip_prefix-splits p s rest k) refl
  | inr (b, k) ↦ cc
]

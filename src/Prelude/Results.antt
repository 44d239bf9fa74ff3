-- ===== src/Prelude/Results.antt =====
-- `Result` of the source's language, with `?` as the bind of a `do` block.
use mathlib.Core.Path.{◌≡◌, refl}
use mathlib.Core.Bool.{Bool, true, false}
use mathlib.Core.Logic.{◌⊎◌, inl, inr}
use mathlib.Core.Option.{Option, none, some}
use thisconnect.Prelude.Tests.{if◌then◌else◌}

pub data Result {ℓ} (E A : Type ℓ) : Type ℓ where
  ok : A → Result E A
  err : E → Result E A

infixl 5 ◌>>=◌
abbrev pub ◌>>=◌ {ℓ} : {E A B : Type ℓ} → Result E A → (A → Result E B) → Result E B
◌>>=◌ (ok value) next = next value
◌>>=◌ (err why) next = err why

-- What `?` returned, where the whole block returned `Ok`.
pub ok_parts {ℓ} :
    {E A B : Type ℓ} {b : B} (next : A → Result E B) (m : Result E A)
    → (m >>= next) ≡ ok b
    → (value : A) × (next value ≡ ok b) × (m ≡ ok value)
ok_parts next (ok value) h = (value, h, refl)
ok_parts next (err why) h = cc

pub ok-injective {ℓ} : {E A : Type ℓ} {a b : A} → ◌≡◌ {A = Result E A} (ok a) (ok b) → a ≡ b
ok-injective h = cc

infixl 5 ◌>>◌
abbrev pub ◌>>◌ {ℓ} : {E B : Type ℓ} → Result E Unit → Result E B → Result E B
m >> k = m >>= λ _. k

pub some-injective {ℓ} : {A : Type ℓ} {a b : A} → some a ≡ some b → a ≡ b
some-injective h = cc

-- The two ways an `if` comes to its value.
pub if_parts {ℓ} :
    {A : Type ℓ} (b : Bool) (x y w : A)
    → (if b then x else y) ≡ w
    → ((b ≡ true) × (x ≡ w)) ⊎ ((b ≡ false) × (y ≡ w))
if_parts true x y w h = inl (refl, h)
if_parts false x y w h = inr (refl, h)

-- An early `return Err(e)` taken when the test does not hold.
abbrev pub guard {ℓ} : {E : Type ℓ} → Bool → E → Result E Unit
guard true e = ok tt
guard false e = err e

abbrev pub is_ok {ℓ} : {E A : Type ℓ} → Result E A → Bool
is_ok (ok a) = true
is_ok (err e) = false

abbrev pub is_some {ℓ} : {A : Type ℓ} → Option A → Bool
is_some (some a) = true
is_some none = false

-- What stands behind an early return that was not taken.
pub guarded {ℓ} :
    {E A : Type ℓ} (c : Bool) (e : E) (m : Result E A) (a : A)
    → (if c then err e else m) ≡ ok a
    → (c ≡ false) × (m ≡ ok a)
guarded true e m a h = cc
guarded false e m a h = (refl, h)

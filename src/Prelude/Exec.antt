-- ===== src/Prelude/Exec.antt =====
-- Fallible code that acts on a world: what was done before an error stays done.
use mathlib.Core.Path.{◌≡◌, refl}
use thisconnect.Prelude.Results.{Result, ok, err}

abbrev pub Exec {ℓ} : Type ℓ → Type ℓ → Type ℓ → Type ℓ
Exec W E A = W → Result E A × W

module _ {ℓ} {W E A : Type ℓ} where
  abbrev pub pure : A → Exec W E A
  pure a w = (ok a, w)

  abbrev pub raise : E → Exec W E A
  raise e w = (err e, w)

module _ {ℓ} {W E A B : Type ℓ} where
  abbrev pub continue : Result E A → (A → Exec W E B) → Exec W E B
  continue (ok a) f w = f a w
  continue (err e) f w = (err e, w)

  infixl 5 ◌>>=◌ ◌>>◌
  abbrev pub ◌>>=◌ : Exec W E A → (A → Exec W E B) → Exec W E B
  ◌>>=◌ m f w = continue (m w).0 f (m w).1

  abbrev pub ◌>>◌ : Exec W E A → Exec W E B → Exec W E B
  m >> k = m >>= λ _. k

  -- What the first part returned, and the world it left, where the whole returned a value.
  pub exec_parts :
      (m : Exec W E A) (f : A → Exec W E B) (w v : W) (b : B)
      → (m >>= f) w ≡ (ok b, v)
      → (a : A) × (u : W) × (m w ≡ (ok a, u)) × (f a u ≡ (ok b, v))
  exec_parts m f w v b h = go (m w) refl h
    where
      go :
          (r : Result E A × W)
          → m w ≡ r
          → continue r.0 f r.1 ≡ (ok b, v)
          → (a : A) × (u : W) × (m w ≡ (ok a, u)) × (f a u ≡ (ok b, v))
      go (ok a, u) e k = (a, u, e, k)
      go (err why, u) e k = cc

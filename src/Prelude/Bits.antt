-- ===== src/Prelude/Bits.antt =====
-- Tests of every value in a small range, and the bits of bytes.
use thisconnect.Prelude.{
  ℕ, zero, suc, ◌/◌, ◌%◌, ◌<◌, ◌≡◌, Bool, true, ◌&&◌, List, [], ◌∷◌, ◌++◌, arith,
}
use thisconnect.Prelude.Text.{Bytes}

-- Whether every number below a bound passes a test.
unfoldable pub all_below : ℕ → (ℕ → Bool) → Bool
all_below zero p = true
all_below (suc n) p = p n && all_below n p

pub all_below-at : (n : ℕ) (p : ℕ → Bool) (x : ℕ) → all_below n p ≡ true → x < n → p x ≡ true
unfolding all_below
all_below-at zero p x h lt = let k : ⊥ = omega (arith, lt) in elim k [ ]
all_below-at (suc n) p x h lt = ground (arith, all_below-at n p x)

-- The eight bits of a byte, the highest first.
abbrev pub byte_bits : ℕ → List ℕ
byte_bits x =
    x / 128 % 2
    ∷ x / 64 % 2
    ∷ x / 32 % 2
    ∷ x / 16 % 2
    ∷ x / 8 % 2
    ∷ x / 4 % 2
    ∷ x / 2 % 2
    ∷ x % 2
    ∷ []

abbrev pub bits : Bytes → List ℕ
bits [] = []
bits (b ∷ bs) = byte_bits b ++ bits bs

-- ===== src/Proxy/Cidr/Agree.antt =====
-- The test of a prefix in proxy/src/listener/cidr.rs, bit by bit.
use thisconnect.Prelude.{
  false, ap₂, and-right, drop, and-left, ◌∙◌, ap, ==_iff, ◌↔◌, sym, length, All, ◌≤◌, ◌<◌, ◌++◌,
  arith, ℕ, suc, ◌+◌, ◌-◌, ◌*◌, ◌^◌, ◌≡◌, refl, Bool, true, ◌&&◌, List, [], ◌∷◌, ◌==◌, take, zero,
}
use thisconnect.Prelude.Text.{text_eq_iff, Bytes, text_eq}
use Prim.Native.Nat.{bit_and}
use thisconnect.Prelude.Bits.{bits, all_below-at, all_below, byte_bits}
use thisconnect.Proxy.Cidr.{byte_at, remainder_matches, mask}

-- The bits above a mask, read off the masked byte and the other way round.
abbrev masked_value : ℕ → List ℕ → ℕ
masked_value r [] = 0
masked_value r (b ∷ bs) = b * 2 ^ (7 - r) + masked_value (suc r) bs

abbrev keeps_top : ℕ → Bool
keeps_top x = all_below 8 λ r.
    text_eq (take r (byte_bits (bit_and x (mask r)))) (take r (byte_bits x))
    && masked_value 0 (take r (byte_bits x)) == bit_and x (mask r)

keeps_top_table : all_below 256 keeps_top ≡ true
unfolding all_below text_eq
keeps_top_table = refl

keeps_at :
    (x r : ℕ)
    → x < 256
    → r < 8
    → (take r (byte_bits (bit_and x (mask r))) ≡ take r (byte_bits x))
      × (masked_value 0 (take r (byte_bits x)) ≡ bit_and x (mask r))
keeps_at x r h k =
    let top = all_below-at 8 _ r (all_below-at 256 keeps_top x keeps_top_table h) k in
    (
      (text_eq_iff (take r (byte_bits (bit_and x (mask r)))) (take r (byte_bits x))).0
          (and-left _ _ top),
      (==_iff (masked_value 0 (take r (byte_bits x))) (bit_and x (mask r))).0 (and-right _ _ top),
    )

remainder_matches-suc :
    (r x y : ℕ)
    → remainder_matches (suc r) x y ≡ (bit_and x (mask (suc r)) == bit_and y (mask (suc r)))
unfolding remainder_matches
remainder_matches-suc r x y =
    let some_bits : (suc r == 0) ≡ false = ground arith in rw some_bits refl

-- Two bytes agree under a mask exactly where they agree in their first bits.
remainder_matches_iff :
    (r x y : ℕ)
    → x < 256
    → y < 256
    → r < 8
    → (remainder_matches r x y ≡ true) ↔ (take r (byte_bits x) ≡ take r (byte_bits y))
unfolding remainder_matches
remainder_matches_iff zero x y h k l = (λ _. refl, λ _. refl)
remainder_matches_iff (suc r) x y h k l =
    let (xs, xv) = keeps_at x (suc r) h l in
    let (ys, yv) = keeps_at y (suc r) k l in
    let (to, from) = ==_iff (bit_and x (mask (suc r))) (bit_and y (mask (suc r))) in
    let step = remainder_matches-suc r x y in
    (
      λ e. sym xs ∙ (ap (λ n. take (suc r) (byte_bits n)) (to (sym step ∙ e)) ∙ ys),
      λ e. step ∙ from (sym xv ∙ (ap (masked_value 0) e ∙ yv)),
    )

byte_table : all_below 256 (λ x. masked_value 0 (byte_bits x) == x) ≡ true
unfolding all_below
byte_table = refl

byte_bits-injective : (x y : ℕ) → x < 256 → y < 256 → byte_bits x ≡ byte_bits y → x ≡ y
byte_bits-injective x y h k e =
    sym ((==_iff _ _).0 (all_below-at 256 (λ n. masked_value 0 (byte_bits n) == n) x byte_table h))
    ∙ (ap (masked_value 0) e
        ∙ (==_iff _ _).0 (all_below-at 256 (λ n. masked_value 0 (byte_bits n) == n) y byte_table k))

-- A number of bits, as whole bytes and a rest.
abbrev pub eights : ℕ → ℕ → ℕ
eights zero r = r
eights (suc k) r = suc (suc (suc (suc (suc (suc (suc (suc (eights k r))))))))

pub eights-divided : (k r : ℕ) → eights k r ≡ 8 * k + r
eights-divided zero r = omega arith
eights-divided (suc k) r = omega (arith, eights-divided k r)

take-append-le : (n : ℕ) (s t : List ℕ) → n ≤ length s → take n (s ++ t) ≡ take n s
take-append-le zero s t h = refl
take-append-le (suc n) [] t h = let k : ⊥ = omega (arith, h) in elim k [ ]
take-append-le (suc n) (x ∷ s) t h = ap (◌∷◌ x) (take-append-le n s t (omega (arith, h)))

front_bits :
    (x y n : ℕ) (s t : List ℕ)
    → (take (eights 1 n) (byte_bits x ++ s) ≡ take (eights 1 n) (byte_bits y ++ t))
      ↔ ((byte_bits x ≡ byte_bits y) × (take n s ≡ take n t))
front_bits x y n s t =
    (λ e. (ap (take 8) e, ap (drop 8) e), λ (e, f). ap₂ (λ (u v : List ℕ). u ++ v) e f)

abbrev pub IsBytes : Bytes → Type 0
IsBytes o = All (λ b. b < 256) o

-- The test of a prefix, with its whole bytes counted one by one.
abbrev pub agree : ℕ → ℕ → Bytes → Bytes → Bool
agree k r a b = text_eq (take k a) (take k b) && remainder_matches r (byte_at a k) (byte_at b k)

no_remainder : (r : ℕ) → r ≡ 0 → remainder_matches r 0 0 ≡ true
unfolding remainder_matches
no_remainder r h = rw h refl

take_none : (r : ℕ) → r ≡ 0 → take r (bits []) ≡ []
take_none r h = rw h refl

pub agree_iff :
    (k r : ℕ) (a b : Bytes)
    → IsBytes a
    → IsBytes b
    → length a ≡ length b
    → 8 * k + r ≤ 8 * length a
    → r < 8
    → (agree k r a b ≡ true) ↔ (take (eights k r) (bits a) ≡ take (eights k r) (bits b))
unfolding text_eq
agree_iff zero r [] [] p q e f l =
    let none : r ≡ 0 = omega (arith, f) in (λ _. refl, λ _. no_remainder r none)
agree_iff zero r (x ∷ a) (y ∷ b) p q e f l =
    let (to, from) = remainder_matches_iff r x y (p.0) (q.0) l in
    let short : r ≤ 8 = omega (arith, l) in
    (
      λ h.
          take-append-le r (byte_bits x) (bits a) short
          ∙ (to h ∙ sym (take-append-le r (byte_bits y) (bits b) short)),
      λ h. from (
          sym (take-append-le r (byte_bits x) (bits a) short)
          ∙ (h ∙ take-append-le r (byte_bits y) (bits b) short)),
    )
agree_iff (suc k) r [] b p q e f l = let k : ⊥ = omega (arith, f) in elim k [ ]
agree_iff zero r [] (y ∷ b) p q e f l = let k : ⊥ = omega (arith, e) in elim k [ ]
agree_iff k r (x ∷ a) [] p q e f l = let k : ⊥ = omega (arith, e) in elim k [ ]
agree_iff (suc k) r (x ∷ a) (y ∷ b) p q e f l =
    let (to, from) = agree_iff k r a b (p.1) (q.1) (omega (arith, e)) (omega (arith, f)) l in
    let (cut, join) = front_bits x y (eights k r) (bits a) (bits b) in
    (
      λ h. join (ap byte_bits ((==_iff x y).0 (heads h)), to (tails h)),
      λ h.
          both ((==_iff x y).1 (byte_bits-injective x y (p.0) (q.0) ((cut h).0)))
            (from ((cut h).1)),
    )
  where
    heads : agree (suc k) r (x ∷ a) (y ∷ b) ≡ true → (x == y) ≡ true
    heads h = ground arith

    tails : agree (suc k) r (x ∷ a) (y ∷ b) ≡ true → agree k r a b ≡ true
    tails h = ground arith

    both : (x == y) ≡ true → agree k r a b ≡ true → agree (suc k) r (x ∷ a) (y ∷ b) ≡ true
    both h h' = ground arith

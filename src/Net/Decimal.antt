-- ===== src/Net/Decimal.antt =====
-- `Display` of an unsigned integer.
use thisconnect.Prelude.{
  ℕ, zero, suc, ◌+◌, ◌/◌, ◌%◌, ◌<◌, ◌≡◌, ◌∙◌, inl, inr, true, [], ◌∷◌, ◌++◌, arith, ltb,
  if◌then◌else◌, Bool-cases, length, all, length-append, all-append,
}
use thisconnect.Prelude.Text.{Text, is_ascii_digit}

unfoldable pub show_fuel : ℕ → ℕ → Text
show_fuel zero n = (b'0' + n % 10) ∷ []
show_fuel (suc f) n =
    let front = show_fuel f (n / 10) in
    let last = (b'0' + n % 10) ∷ [] in if ltb n 10 then last else front ++ last

-- A number has fewer digits than its value, or one.
unfoldable pub show : ℕ → Text
unfolding show_fuel
show n = show_fuel n n

digit_is_ascii_digit : (n : ℕ) → is_ascii_digit (b'0' + n % 10) ≡ true
digit_is_ascii_digit n = ground arith

show_fuel-is_ascii_digit : (f n : ℕ) → all is_ascii_digit (show_fuel f n) ≡ true
unfolding show_fuel
show_fuel-is_ascii_digit zero n = rw (digit_is_ascii_digit n)
show_fuel-is_ascii_digit (suc f) n = elim (Bool-cases (ltb n 10)) [
  | inl small ↦ rw small (rw (digit_is_ascii_digit n))
  | inr large ↦ rw large (
      all-append is_ascii_digit (show_fuel f (n / 10)) ((b'0' + n % 10) ∷ [])
      ∙ rw (show_fuel-is_ascii_digit f (n / 10), digit_is_ascii_digit n))
]

show_fuel-ne_nil : (f n : ℕ) → 0 < length (show_fuel f n)
unfolding show_fuel
show_fuel-ne_nil zero n = omega arith
show_fuel-ne_nil (suc f) n = elim (Bool-cases (ltb n 10)) [
  | inl small ↦ rw small (omega arith)
  | inr large ↦
      rw large (omega (arith, length-append {0} (show_fuel f (n / 10)) ((b'0' + n % 10) ∷ [])))
]

pub show-is_ascii_digit : (n : ℕ) → all is_ascii_digit (show n) ≡ true
unfolding show
show-is_ascii_digit n = show_fuel-is_ascii_digit n n

pub show-ne_nil : (n : ℕ) → 0 < length (show n)
unfolding show
show-ne_nil n = show_fuel-ne_nil n n

-- ===== src/Net/Numerals.antt =====
-- A number that `Display` wrote is read back by `FromStr`.
use thisconnect.Prelude.{
  ℕ, zero, suc, ◌+◌, ◌-◌, ◌*◌, ◌/◌, ◌%◌, ◌≤◌, ◌<◌, ◌≡◌, refl, ap, ◌∙◌, inl, inr, Bool, true, false,
  Option, none, some, [], ◌∷◌, ◌++◌, arith, ltb, ◌==◌, if◌then◌else◌, Bool-cases, and-left, length,
  all, length-append,
}
use thisconnect.Prelude.Text.{Text, is_ascii_digit}
use thisconnect.Prelude.Split.{digits_value, digits, parse_unsigned}
use thisconnect.Net.Decimal.{show_fuel, show, show-is_ascii_digit, show-ne_nil}

abbrev and_then : Option ℕ → (ℕ → Option ℕ) → Option ℕ
and_then none f = none
and_then (some v) f = f v

guarded_value :
    (b c : Bool) (o : Option ℕ) (f : ℕ → Option ℕ)
    → (if b then and_then o f else none) ≡ and_then (if b then o else none) f
guarded_value true c o f = refl
guarded_value false c o f = refl

digits_value-append :
    (acc : ℕ) (s t : Text)
    → digits_value acc (s ++ t) ≡ and_then (digits_value acc s) (λ v. digits_value v t)
unfolding digits_value
digits_value-append acc [] t = refl
digits_value-append acc (c ∷ s) t =
    ap (λ (o : Option ℕ). if is_ascii_digit c then o else none)
      (digits_value-append (acc * 10 + (c - b'0')) s t)
    ∙ guarded_value (is_ascii_digit c) true (digits_value (acc * 10 + (c - b'0')) s)
        (λ v. digits_value v t)

last_digit : (acc n : ℕ) → digits_value acc ((b'0' + n % 10) ∷ []) ≡ some (acc * 10 + n % 10)
unfolding digits_value
last_digit acc n =
    let d : is_ascii_digit (b'0' + n % 10) ≡ true = ground arith in
    let v : b'0' + n % 10 - b'0' ≡ n % 10 = omega arith in rw (d, v) refl

digits_value-show_fuel : (f n : ℕ) → n ≤ f → digits_value 0 (show_fuel f n) ≡ some n
unfolding show_fuel
digits_value-show_fuel zero n h = last_digit 0 n ∙ ap some (omega (arith, h))
digits_value-show_fuel (suc f) n h = elim (Bool-cases (ltb n 10)) [
  | inl small ↦ rw small (last_digit 0 n ∙ ap some (ground (arith, small)))
  | inr large ↦
      let fits : n / 10 ≤ f = ground (arith, h, large) in
      let whole : n / 10 * 10 + n % 10 ≡ n = omega arith in
      rw large (
        digits_value-append 0 (show_fuel f (n / 10)) ((b'0' + n % 10) ∷ [])
        ∙ rw (digits_value-show_fuel f (n / 10) fits, last_digit (n / 10) n) (ap some whole))
]

-- The least number with one digit more.
abbrev pub tens : ℕ → ℕ
tens zero = 10
tens (suc k) = 10 * tens k

length-show_fuel : (f n k : ℕ) → n < tens k → length (show_fuel f n) ≤ suc k
unfolding show_fuel
length-show_fuel zero n k h = omega arith
length-show_fuel (suc f) n zero h = ground (arith, h)
length-show_fuel (suc f) n (suc k) h = elim (Bool-cases (ltb n 10)) [
  | inl small ↦ rw small (omega arith)
  | inr large ↦ rw large (
      omega (
        arith,
        length-append {0} (show_fuel f (n / 10)) ((b'0' + n % 10) ∷ []),
        length-show_fuel f (n / 10) k (omega (arith, h)),
      ))
]

pub length-show : (n k : ℕ) → n < tens k → length (show n) ≤ suc k
unfolding show
length-show n k h = length-show_fuel n n k h

digits-show : (s : Text) (n : ℕ) → 0 < length s → digits_value 0 s ≡ some n → digits s ≡ some n
unfolding digits
digits-show [] n h k = let k : ⊥ = omega (arith, h) in elim k [ ]
digits-show (c ∷ s) n h k = k

unsigned_digits :
    (limit : ℕ) (s : Text) (n : ℕ)
    → all is_ascii_digit s ≡ true
    → digits s ≡ some n
    → n ≤ limit
    → parse_unsigned limit s ≡ some n
unfolding parse_unsigned digits
unsigned_digits limit [] n a h k = cc
unsigned_digits limit (c ∷ s) n a h k =
    let unsigned : (c == b'+') ≡ false =
      ground (arith, and-left (is_ascii_digit c) (all is_ascii_digit s) a) in
    let fits : ltb limit n ≡ false = ground (arith, k) in rw (unsigned, h, fits) refl

-- A number within the limit of its type is read back.
pub parse_unsigned-show : (limit n : ℕ) → n ≤ limit → parse_unsigned limit (show n) ≡ some n
unfolding show
parse_unsigned-show limit n h =
    unsigned_digits limit (show n) n (show-is_ascii_digit n)
      (digits-show (show n) n (show-ne_nil n) (digits_value-show_fuel n n (omega arith))) h

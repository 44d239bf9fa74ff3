-- ===== src/Prelude/Split.antt =====
-- The searches, splits and number parsers of `str` that the program calls.
use mathlib.Core.List.{reverse, List, [], ◌∷◌}
use thisconnect.Prelude.Tests.{ltb, ◌==◌, if◌then◌else◌}
use thisconnect.Prelude.Lists.{length, drop}
use Prim.Native.Nat.{ℕ, zero, suc, ◌+◌, ◌-◌, ◌*◌, ◌^◌, ◌≤◌}
use mathlib.Core.Path.{◌≡◌}
use mathlib.Core.Option.{Option, none, some}
use native.Mathlib.Omega.{arith}
use thisconnect.Prelude.Text.{Text, starts_with, is_ascii_digit}

-- Integers, as `i64` values are.
pub data ℤ : Type 0 where
  pos : ℕ → ℤ
  negsuc : ℕ → ℤ

-- `s.split_once(c)`: at the first occurrence
unfoldable pub split_once : ℕ → Text → Option (Text × Text)
split_once c [] = none
split_once c (x ∷ xs) =
    let later = split_once c xs in
    if x == c
    then some ([], xs)
    else elim later [ none ↦ none | some (front, tail) ↦ some (x ∷ front, tail) ]

-- `s.rsplit_once(c)`: at the last occurrence
unfoldable pub rsplit_once : ℕ → Text → Option (Text × Text)
rsplit_once c [] = none
rsplit_once c (x ∷ xs) = elim (rsplit_once c xs) [
  | some (front, tail) ↦ some (x ∷ front, tail)
  | none ↦ if x == c then some ([], xs) else none
]

-- `s.split_once("..")` for a pattern of several characters
unfoldable pub split_once_text : Text → Text → Option (Text × Text)
unfolding starts_with
split_once_text p [] = if starts_with p [] then some ([], []) else none
split_once_text p (x ∷ xs) =
    let later = split_once_text p xs in
    if starts_with p (x ∷ xs)
    then some ([], drop (length p) (x ∷ xs))
    else elim later [ none ↦ none | some (front, tail) ↦ some (x ∷ front, tail) ]

abbrev pub onto_head : ℕ → List Text → List Text
onto_head c [] = (c ∷ []) ∷ []
onto_head c (l ∷ ls) = (c ∷ l) ∷ ls

-- `s.split(c).collect()`
unfoldable pub split : ℕ → Text → List Text
split c [] = [] ∷ []
split c (x ∷ xs) = let rest = split c xs in if x == c then [] ∷ rest else onto_head x rest

-- The number that decimal digits spell, or `none` at any other character.
unfoldable pub digits_value : ℕ → Text → Option ℕ
digits_value acc [] = some acc
digits_value acc (c ∷ cs) =
    let rest = digits_value (acc * 10 + (c - b'0')) cs in if is_ascii_digit c then rest else none

unfoldable pub digits : Text → Option ℕ
unfolding digits_value
digits [] = none
digits (c ∷ cs) = digits_value 0 (c ∷ cs)

abbrev pub at_most : ℕ → Option ℕ → Option ℕ
at_most limit none = none
at_most limit (some n) = if ltb limit n then none else some n

-- `s.parse::<uN>()` for the greatest value `limit`: a plus sign may stand before the digits
unfoldable pub parse_unsigned : ℕ → Text → Option ℕ
unfolding digits
parse_unsigned limit [] = none
parse_unsigned limit (c ∷ cs) = at_most limit (digits (if c == b'+' then cs else c ∷ cs))

abbrev pub u16_max : ℕ
u16_max = 65535

abbrev pub u32_max : ℕ
u32_max = 4294967295

abbrev pub u64_max : ℕ
u64_max = 18446744073709551615

abbrev negate : ℕ → ℤ
negate zero = pos 0
negate (suc n) = negsuc n

-- `s.parse::<i64>()`
unfoldable pub parse_i64 : Text → Option ℤ
unfolding digits
parse_i64 [] = none
parse_i64 (c ∷ cs) =
    if c == b'-'
    then elim (at_most (2 ^ 63) (digits cs)) [ none ↦ none | some n ↦ some (negate n) ]
    else elim (at_most (2 ^ 63 - 1) (digits (if c == b'+' then cs else c ∷ cs))) [
      | none ↦ none
      | some n ↦ some (pos n)
    ]

-- `s.trim_matches(c)` for one character
unfoldable pub trim_start_char : ℕ → Text → Text
trim_start_char c [] = []
trim_start_char c (x ∷ xs) = let rest = trim_start_char c xs in if x == c then rest else x ∷ xs

unfoldable pub trim_matches : ℕ → Text → Text
unfolding trim_start_char
trim_matches c s = reverse (trim_start_char c (reverse (trim_start_char c s)))

pub at_most-le : (limit : ℕ) (o : Option ℕ) (n : ℕ) → at_most limit o ≡ some n → n ≤ limit
at_most-le limit none n h = cc
at_most-le limit (some m) n h = ground arith

-- A parsed number fits its type.
pub parse_unsigned-le : (limit : ℕ) (s : Text) (n : ℕ) → parse_unsigned limit s ≡ some n → n ≤ limit
unfolding parse_unsigned
parse_unsigned-le limit [] n h = cc
parse_unsigned-le limit (c ∷ cs) n h =
    at_most-le limit (digits (if c == b'+' then cs else c ∷ cs)) n h

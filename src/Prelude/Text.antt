-- ===== src/Prelude/Text.antt =====
-- Text as the list of its code points, with the operations of the language's `str` that the
-- program calls. A byte string is a list of numbers below 256.
use Prim.Native.Nat.{ℕ, ◌+◌}
use Prim.Native.Char.{code}
use Prim.Native.String.{String}
use mathlib.Core.Path.{◌≡◌}
use mathlib.Core.Logic.{◌↔◌}
use mathlib.Core.Bool.{Bool, true, false, ◌&&◌, ◌||◌}
use mathlib.Core.Option.{Option, none, some}
use mathlib.Core.List.{List, [], ◌∷◌, reverse}
use native.Mathlib.Omega.{arith}
use thisconnect.Prelude.Tests.{ltb, leb, ◌==◌, if◌then◌else◌}

abbrev pub Text : Type 0
Text = List ℕ

abbrev pub Bytes : Type 0
Bytes = List ℕ

-- A literal of the source.
abbrev pub codes : String → Text
codes String.[] = []
codes (String.◌∷◌ c s) = code c ∷ codes s

unfoldable pub text_eq : Text → Text → Bool
text_eq [] [] = true
text_eq (x ∷ xs) (y ∷ ys) = x == y && text_eq xs ys
text_eq _ _ = false

pub text_eq_iff : (s t : Text) → (text_eq s t ≡ true) ↔ (s ≡ t)
unfolding text_eq
text_eq_iff (x ∷ s) (y ∷ t) = ground (arith, text_eq_iff s t)
text_eq_iff _ _ = ground arith

-- `[..].contains(&name)`
unfoldable pub one_of : Text → List Text → Bool
one_of name [] = false
one_of name (x ∷ xs) = text_eq name x || one_of name xs

-- `s.strip_prefix(p)`
unfoldable pub strip_prefix : Text → Text → Option Text
strip_prefix [] s = some s
strip_prefix (p ∷ ps) [] = none
strip_prefix (p ∷ ps) (c ∷ cs) = if p == c then strip_prefix ps cs else none

unfoldable pub starts_with : Text → Text → Bool
starts_with [] s = true
starts_with (p ∷ ps) [] = false
starts_with (p ∷ ps) (c ∷ cs) = p == c && starts_with ps cs

-- `s.strip_suffix(c)` for one character
unfoldable pub strip_suffix_char : ℕ → Text → Option Text
strip_suffix_char c [] = none
strip_suffix_char c (x ∷ []) = if x == c then some [] else none
strip_suffix_char c (x ∷ y ∷ ys) = elim (strip_suffix_char c (y ∷ ys)) [
  | none ↦ none
  | some front ↦ some (x ∷ front)
]

abbrev pub within : ℕ → ℕ → ℕ → Bool
within lo hi c = leb c hi && leb lo c

abbrev pub is_ascii_upper : ℕ → Bool
is_ascii_upper c = within b'A' b'Z' c

abbrev pub is_ascii_digit : ℕ → Bool
is_ascii_digit c = within b'0' b'9' c

unfoldable pub is_ascii_alphanumeric : ℕ → Bool
is_ascii_alphanumeric c = is_ascii_digit c || is_ascii_upper c || within b'a' b'z' c

abbrev pub ascii_lower : ℕ → ℕ
ascii_lower c = if is_ascii_upper c then c + 32 else c

unfoldable pub to_ascii_lowercase : Text → Text
to_ascii_lowercase [] = []
to_ascii_lowercase (c ∷ cs) = ascii_lower c ∷ to_ascii_lowercase cs

-- `char::is_whitespace`: the Unicode property White_Space
unfoldable pub is_whitespace : ℕ → Bool
is_whitespace c =
    within 0x09 0x0d c
    || c == 0x20
    || c == 0x85
    || c == 0xa0
    || c == 0x1680
    || within 0x2000 0x200a c
    || within 0x2028 0x2029 c
    || c == 0x202f
    || c == 0x205f
    || c == 0x3000

unfoldable pub trim_start : Text → Text
trim_start [] = []
trim_start (c ∷ cs) = let rest = trim_start cs in if is_whitespace c then rest else c ∷ cs

unfoldable pub trim : Text → Text
unfolding trim_start is_whitespace
trim s = reverse (trim_start (reverse (trim_start s)))

-- The UTF-8 length of one character, and `s.len()`.
abbrev pub utf8_width : ℕ → ℕ
utf8_width c = if ltb c 0x80 then 1 else if ltb c 0x800 then 2 else if ltb c 0x10000 then 3 else 4

unfoldable pub byte_len : Text → ℕ
byte_len [] = 0
byte_len (c ∷ cs) = utf8_width c + byte_len cs

-- `hay.contains(needle)`
unfoldable pub contains : Text → Text → Bool
contains [] needle = starts_with needle []
contains (c ∷ cs) needle = starts_with needle (c ∷ cs) || contains cs needle

-- `s.lines().next().unwrap_or_default()`: up to the first newline, less a carriage return there.
unfoldable pub before_newline : Text → Text
before_newline [] = []
before_newline (c ∷ cs) = let rest = before_newline cs in if c == b'\n' then [] else c ∷ rest

-- `s.lines()`: a line feed ends a line, with a carriage return before it; an empty rest is none.
abbrev pub onto_first : ℕ → List Text → List Text
onto_first c [] = (c ∷ []) ∷ []
onto_first c (l ∷ ls) = (c ∷ l) ∷ ls

unfoldable pub lines : Text → List Text
lines [] = []
lines (c ∷ cs) =
    let rest = lines cs in
    if c == b'\n'
    then [] ∷ rest
    else if c == b'\r' && starts_with (b'\n' ∷ []) cs
    then rest
    else onto_first c rest

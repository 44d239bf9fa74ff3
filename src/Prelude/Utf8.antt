-- ===== src/Prelude/Utf8.antt =====
-- `std::str::from_utf8`: the code points of well-formed UTF-8.
use thisconnect.Prelude.{
  ℕ, ◌+◌, ◌-◌, ◌*◌, ◌≡◌, refl, Bool, true, false, ◌&&◌, Option, none, some, [], ◌∷◌, ltb, ◌==◌,
  if◌then◌else◌, and-left, and-right, all,
}
use thisconnect.Prelude.Text.{Text, Bytes, within}

abbrev is_continuation : ℕ → Bool
is_continuation b = within 0x80 0xbf b

-- one code point with its bytes taken off, in the order of the table of well-formed sequences
abbrev two : ℕ → ℕ → ℕ
two a b = (a - 0xc0) * 64 + (b - 0x80)

abbrev three : ℕ → ℕ → ℕ → ℕ
three a b c = (a - 0xe0) * 4096 + (b - 0x80) * 64 + (c - 0x80)

abbrev four : ℕ → ℕ → ℕ → ℕ → ℕ
four a b c d = (a - 0xf0) * 262144 + (b - 0x80) * 4096 + (c - 0x80) * 64 + (d - 0x80)

-- the second byte that a three-byte sequence allows: neither overlong nor a surrogate
abbrev second_of_three : ℕ → ℕ → Bool
second_of_three a b =
    if a == 0xe0
    then within 0xa0 0xbf b
    else if a == 0xed
    then within 0x80 0x9f b
    else within 0xe1 0xef a && is_continuation b

-- the second byte that a four-byte sequence allows: neither overlong nor above 0x10ffff
abbrev second_of_four : ℕ → ℕ → Bool
second_of_four a b =
    if a == 0xf0
    then within 0x90 0xbf b
    else if a == 0xf4
    then within 0x80 0x8f b
    else within 0xf1 0xf3 a && is_continuation b

abbrev onto : ℕ → Option Text → Option Text
onto c none = none
onto c (some t) = some (c ∷ t)

-- one of the tests is met by at most one length of sequence
unfoldable pub from_utf8 : Bytes → Option Text
from_utf8 [] = some []
from_utf8 (a ∷ []) = if ltb a 0x80 then some (a ∷ []) else none
from_utf8 (a ∷ b ∷ []) = elim (ltb a 0x80) [
  | true ↦ onto a (from_utf8 (b ∷ []))
  | false ↦ if within 0xc2 0xdf a && is_continuation b then some (two a b ∷ []) else none
]
from_utf8 (a ∷ b ∷ c ∷ []) = elim (ltb a 0x80) [
  | true ↦ onto a (from_utf8 (b ∷ c ∷ []))
  | false ↦ elim (within 0xc2 0xdf a && is_continuation b) [
    | true ↦ onto (two a b) (from_utf8 (c ∷ []))
    | false ↦ if second_of_three a b && is_continuation c then some (three a b c ∷ []) else none
  ]
]
from_utf8 (a ∷ b ∷ c ∷ d ∷ rest) = elim (ltb a 0x80) [
  | true ↦ onto a (from_utf8 (b ∷ c ∷ d ∷ rest))
  | false ↦ elim (within 0xc2 0xdf a && is_continuation b) [
    | true ↦ onto (two a b) (from_utf8 (c ∷ d ∷ rest))
    | false ↦ elim (second_of_three a b && is_continuation c) [
      | true ↦ onto (three a b c) (from_utf8 (d ∷ rest))
      | false ↦ elim (second_of_four a b && is_continuation c && is_continuation d) [
        | true ↦ onto (four a b c d) (from_utf8 rest)
        | false ↦ none
      ]
    ]
  ]
]

decodes :
    from_utf8 (0x41 ∷ 0xc3 ∷ 0xa9 ∷ 0xe2 ∷ 0x82 ∷ 0xac ∷ 0xf0 ∷ 0x9f ∷ 0x98 ∷ 0x80 ∷ [])
    ≡ some (0x41 ∷ 0xe9 ∷ 0x20ac ∷ 0x1f600 ∷ [])
unfolding from_utf8
decodes = refl

-- ASCII is its own text.
pub from_utf8-ascii : (s : Bytes) → all (λ b. ltb b 0x80) s ≡ true → from_utf8 s ≡ some s
unfolding from_utf8
from_utf8-ascii [] h = refl
from_utf8-ascii (a ∷ []) h = rw (and-left (ltb a 0x80) true h) refl
from_utf8-ascii (a ∷ b ∷ []) h =
    rw
      (
        and-left (ltb a 0x80) (all (λ b. ltb b 0x80) (b ∷ [])) h,
        from_utf8-ascii (b ∷ []) (and-right (ltb a 0x80) _ h),
        from_utf8,
      )
      refl
from_utf8-ascii (a ∷ b ∷ c ∷ []) h =
    rw
      (
        and-left (ltb a 0x80) (all (λ b. ltb b 0x80) (b ∷ c ∷ [])) h,
        from_utf8-ascii (b ∷ c ∷ []) (and-right (ltb a 0x80) _ h),
        from_utf8,
      )
      refl
from_utf8-ascii (a ∷ b ∷ c ∷ d ∷ rest) h =
    rw
      (
        and-left (ltb a 0x80) (all (λ b. ltb b 0x80) (b ∷ c ∷ d ∷ rest)) h,
        from_utf8-ascii (b ∷ c ∷ d ∷ rest) (and-right (ltb a 0x80) _ h),
        from_utf8,
      )
      refl

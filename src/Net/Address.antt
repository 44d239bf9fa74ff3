-- ===== src/Net/Address.antt =====
-- `IpAddr`: its octets, `FromStr` and `Display`.
use thisconnect.Prelude.{
  ℕ, zero, suc, ◌+◌, ◌-◌, ◌*◌, ◌/◌, ◌%◌, ◌≡◌, refl, Bool, true, false, not, ◌&&◌, Option, none,
  some, List, [], ◌∷◌, ◌++◌, ltb, leb, ◌==◌, if◌then◌else◌, length, take, drop, is_empty,
}
use thisconnect.Prelude.Text.{Text, Bytes, codes, text_eq, within, is_ascii_digit}
use thisconnect.Prelude.Split.{split, split_once_text, digits_value}
use thisconnect.Net.Decimal.{show}

-- Four octets, or sixteen.
pub data IpAddr : Type 0 where
  v4 : Bytes → IpAddr
  v6 : Bytes → IpAddr

abbrev pub is_ipv6 : IpAddr → Bool
is_ipv6 (v4 o) = false
is_ipv6 (v6 o) = true

-- one to three digits, no zero before another digit, at most 255
unfoldable pub parse_octet : Text → Option ℕ
unfolding digits_value
parse_octet [] = none
parse_octet (c ∷ cs) =
    if leb (length cs) 2 && not (c == b'0' && not (is_empty cs))
    then elim (digits_value 0 (c ∷ cs)) [
      | none ↦ none
      | some n ↦ if ltb 255 n then none else some n
    ]
    else none

abbrev octets4 : Option ℕ → Option ℕ → Option ℕ → Option ℕ → Option Bytes
octets4 (some a) (some b) (some c) (some d) = some (a ∷ b ∷ c ∷ d ∷ [])
octets4 _ _ _ _ = none

unfoldable pub v4_parts : List Text → Option Bytes
unfolding parse_octet
v4_parts (a ∷ b ∷ c ∷ d ∷ []) =
    octets4 (parse_octet a) (parse_octet b) (parse_octet c) (parse_octet d)
v4_parts _ = none

unfoldable pub parse_v4 : Text → Option Bytes
unfolding v4_parts split
parse_v4 s = v4_parts (split b'.' s)

abbrev hex_value : ℕ → Option ℕ
hex_value c =
    if is_ascii_digit c
    then some (c - b'0')
    else if within b'a' b'f' c
    then some (c - 87)
    else if within b'A' b'F' c
    then some (c - 55)
    else none

hex_digits : ℕ → Text → Option ℕ
hex_digits acc [] = some acc
hex_digits acc (c ∷ cs) = elim (hex_value c) [ none ↦ none | some d ↦ hex_digits (acc * 16 + d) cs ]

-- one to four hexadecimal digits, as two octets
unfoldable pub parse_group : Text → Option Bytes
unfolding hex_digits
parse_group [] = none
parse_group (c ∷ cs) =
    if leb (length cs) 3
    then elim (hex_digits 0 (c ∷ cs)) [ none ↦ none | some n ↦ some (n / 256 ∷ n % 256 ∷ []) ]
    else none

abbrev join : Option Bytes → Option Bytes → Option Bytes
join (some a) (some b) = some (a ++ b)
join _ _ = none

-- The groups of one side of `::`; the last may be an IPv4 address where the flag says so.
unfoldable pub parse_groups : Bool → List Text → Option Bytes
unfolding parse_group parse_v4
parse_groups embedded [] = some []
parse_groups embedded (g ∷ []) = elim (parse_group g) [
  | some o ↦ some o
  | none ↦ if embedded then parse_v4 g else none
]
parse_groups embedded (g ∷ h ∷ gs) = join (parse_group g) (parse_groups embedded (h ∷ gs))

abbrev groups_of : Text → List Text
groups_of [] = []
groups_of (c ∷ cs) = split b':' (c ∷ cs)

zeros : ℕ → Bytes
zeros zero = []
zeros (suc n) = 0 ∷ zeros n

abbrev filled : Option Bytes → Option Bytes → Option Bytes
filled (some a) (some b) =
    if leb (length a + length b) 14
    then some (a ++ (zeros (16 - (length a + length b)) ++ b))
    else none
filled _ _ = none

abbrev exactly_16 : Option Bytes → Option Bytes
exactly_16 none = none
exactly_16 (some o) = if length o == 16 then some o else none

unfoldable pub parse_v6 : Text → Option Bytes
unfolding parse_groups split_once_text split zeros
parse_v6 s = elim (split_once_text (codes "::") s) [
  | none ↦ exactly_16 (parse_groups true (groups_of s))
  | some (front, tail) ↦
      filled (parse_groups false (groups_of front)) (parse_groups true (groups_of tail))
]

-- `s.parse::<IpAddr>()`
unfoldable pub parse_ip : Text → Option IpAddr
unfolding parse_v4 parse_v6
parse_ip s = elim (parse_v4 s) [
  | some o ↦ some (v4 o)
  | none ↦ elim (parse_v6 s) [ some o ↦ some (v6 o) | none ↦ none ]
]

unfoldable pub show_v4 : Bytes → Text
unfolding show
show_v4 [] = []
show_v4 (a ∷ []) = show a
show_v4 (a ∷ b ∷ os) = show a ++ (b'.' ∷ show_v4 (b ∷ os))

abbrev pub hex_char : ℕ → ℕ
hex_char d = if ltb d 10 then b'0' + d else b'a' + (d - 10)

-- a group in lower case with no leading zeros
unfoldable pub show_group : ℕ → Text
show_group n =
    let a = hex_char (n / 4096 % 16) in
    let b = hex_char (n / 256 % 16) in
    let c = hex_char (n / 16 % 16) in
    let d = hex_char (n % 16) in
    if ltb n 16
    then d ∷ []
    else if ltb n 256
    then c ∷ d ∷ []
    else if ltb n 4096
    then b ∷ c ∷ d ∷ []
    else a ∷ b ∷ c ∷ d ∷ []

unfoldable pub segments : Bytes → List ℕ
segments (a ∷ b ∷ os) = (a * 256 + b) ∷ segments os
segments _ = []

unfoldable pub show_groups : List ℕ → Text
unfolding show_group
show_groups [] = []
show_groups (g ∷ []) = show_group g
show_groups (g ∷ h ∷ gs) = show_group g ++ (b':' ∷ show_groups (h ∷ gs))

-- The run of zero groups at the head.
unfoldable pub zero_run : List ℕ → ℕ
zero_run [] = 0
zero_run (g ∷ gs) = let more = zero_run gs in if g == 0 then suc more else 0

-- Start and length of the first longest run of zero groups, from the index `i` on.
unfoldable pub longest_run : ℕ → List ℕ → ℕ × ℕ
unfolding zero_run
longest_run i [] = (0, 0)
longest_run i (g ∷ gs) =
    let here = zero_run (g ∷ gs) in
    let (start, size) = longest_run (i + 1) gs in if leb size here then (i, here) else (start, size)

unfoldable pub show_v6_groups : List ℕ → Text
unfolding show_groups longest_run
show_v6_groups gs =
    let (start, size) = longest_run 0 gs in
    if ltb 1 size
    then show_groups (take start gs) ++ (codes "::" ++ show_groups (drop (start + size) gs))
    else show_groups gs

-- an IPv4-mapped address shows the IPv4 address
unfoldable pub show_v6 : Bytes → Text
unfolding show_v6_groups segments show_v4 text_eq
show_v6 o =
    if text_eq (take 12 o) (0 ∷ 0 ∷ 0 ∷ 0 ∷ 0 ∷ 0 ∷ 0 ∷ 0 ∷ 0 ∷ 0 ∷ 255 ∷ 255 ∷ [])
    then codes "::ffff:" ++ show_v4 (drop 12 o)
    else show_v6_groups (segments o)

unfoldable pub show_ip : IpAddr → Text
unfolding show_v4 show_v6
show_ip (v4 o) = show_v4 o
show_ip (v6 o) = show_v6 o

round_trip :
    (show_v6 (0x20 ∷ 1 ∷ 0xd ∷ 0xb8 ∷ 0 ∷ 0 ∷ 0 ∷ 0 ∷ 0 ∷ 0 ∷ 0 ∷ 0 ∷ 0 ∷ 0 ∷ 0 ∷ 1 ∷ [])
      ≡ codes "2001:db8::1")
    × (parse_ip (codes "2001:db8::1")
        ≡ some (v6 (0x20 ∷ 1 ∷ 0xd ∷ 0xb8 ∷ 0 ∷ 0 ∷ 0 ∷ 0 ∷ 0 ∷ 0 ∷ 0 ∷ 0 ∷ 0 ∷ 0 ∷ 0 ∷ 1 ∷ [])))
    × (parse_ip (codes "10.8.0.2") ≡ some (v4 (10 ∷ 8 ∷ 0 ∷ 2 ∷ [])))
    × (parse_ip (codes "10.8.0.02") ≡ none)
unfolding show_v6 parse_ip
round_trip = (refl, refl, refl, refl)

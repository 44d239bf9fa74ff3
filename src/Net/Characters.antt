-- ===== src/Net/Characters.antt =====
-- The characters of a number and of an address as text.
use thisconnect.Prelude.{
  ℕ, ◌+◌, ◌/◌, ◌%◌, ◌≡◌, refl, ◌∙◌, Bool, true, false, ◌||◌, List, [], ◌∷◌, ◌++◌, arith, ltb, ◌==◌,
  if◌then◌else◌, and-left, and-right, take, drop, all, all-append,
}
use thisconnect.Prelude.Text.{Text, Bytes, codes, text_eq, is_ascii_digit, is_ascii_alphanumeric}
use thisconnect.Net.Decimal.{show, show-is_ascii_digit}
use thisconnect.Net.Address.{
  IpAddr, v4, v6, hex_char, show_ip, show_v4, show_v6, show_v6_groups, show_groups, show_group,
  segments, longest_run,
}

abbrev pub is_address_char : ℕ → Bool
is_address_char c = is_ascii_alphanumeric c || c == b'.' || c == b':'

abbrev is_plain_address : Text → Bool
is_plain_address t = all is_address_char t

pub all_implies :
    (f g : ℕ → Bool) (t : Text)
    → ((c : ℕ) → f c ≡ true → g c ≡ true)
    → all f t ≡ true
    → all g t ≡ true
all_implies f g [] h k = refl
all_implies f g (c ∷ t) h k =
    rw (h c (and-left (f c) (all f t) k), all_implies f g t h (and-right (f c) (all f t) k))

alphanumeric_is_address : (c : ℕ) → is_ascii_alphanumeric c ≡ true → is_address_char c ≡ true
alphanumeric_is_address c h = rw h

digit_is_address : (c : ℕ) → is_ascii_digit c ≡ true → is_address_char c ≡ true
unfolding is_ascii_alphanumeric
digit_is_address c h = alphanumeric_is_address c (ground arith)

show-is_address_char : (n : ℕ) → is_plain_address (show n) ≡ true
show-is_address_char n =
    all_implies is_ascii_digit is_address_char (show n) digit_is_address (show-is_ascii_digit n)

append-is_address_char :
    (a b : Text)
    → is_plain_address a ≡ true
    → is_plain_address b ≡ true
    → is_plain_address (a ++ b) ≡ true
append-is_address_char a b h k = all-append is_address_char a b ∙ rw (h, k)

show_v4-is_address_char : (o : Bytes) → is_plain_address (show_v4 o) ≡ true
unfolding show_v4 is_ascii_alphanumeric
show_v4-is_address_char [] = refl
show_v4-is_address_char (a ∷ []) = show-is_address_char a
show_v4-is_address_char (a ∷ b ∷ o) =
    append-is_address_char (show a) (b'.' ∷ show_v4 (b ∷ o)) (show-is_address_char a)
      (show_v4-is_address_char (b ∷ o))

hex_char-is_address_char : (n : ℕ) → is_address_char (hex_char (n % 16)) ≡ true
unfolding is_ascii_alphanumeric
hex_char-is_address_char n = alphanumeric_is_address (hex_char (n % 16)) (ground arith)

if_both :
    (b : Bool) (s t : Text)
    → is_plain_address s ≡ true
    → is_plain_address t ≡ true
    → is_plain_address (if b then s else t) ≡ true
if_both true s t h k = h
if_both false s t h k = k

show_group-is_address_char : (n : ℕ) → is_plain_address (show_group n) ≡ true
unfolding show_group
show_group-is_address_char n =
    let a = hex_char-is_address_char (n / 4096) in
    let b = hex_char-is_address_char (n / 256) in
    let c = hex_char-is_address_char (n / 16) in
    let d = hex_char-is_address_char n in
    if_both (ltb n 16) _ _ (rw d) (
      if_both (ltb n 256) _ _ (rw (c, d))
        (if_both (ltb n 4096) _ _ (rw (b, c, d)) (rw (a, b, c, d))))

show_groups-is_address_char : (gs : List ℕ) → is_plain_address (show_groups gs) ≡ true
unfolding show_groups is_ascii_alphanumeric
show_groups-is_address_char [] = refl
show_groups-is_address_char (g ∷ []) = show_group-is_address_char g
show_groups-is_address_char (g ∷ h ∷ gs) =
    append-is_address_char (show_group g) (b':' ∷ show_groups (h ∷ gs))
      (show_group-is_address_char g) (show_groups-is_address_char (h ∷ gs))

show_v6_groups-is_address_char : (gs : List ℕ) → is_plain_address (show_v6_groups gs) ≡ true
unfolding show_v6_groups is_ascii_alphanumeric
show_v6_groups-is_address_char gs =
    let (start, size) = longest_run 0 gs in
    if_both (ltb 1 size) _ _
      (append-is_address_char (show_groups (take start gs)) _
        (show_groups-is_address_char (take start gs))
        (show_groups-is_address_char (drop (start + size) gs)))
      (show_groups-is_address_char gs)

show_v6-is_address_char : (o : Bytes) → is_plain_address (show_v6 o) ≡ true
unfolding show_v6 is_ascii_alphanumeric
show_v6-is_address_char o =
    if_both (text_eq (take 12 o) (0 ∷ 0 ∷ 0 ∷ 0 ∷ 0 ∷ 0 ∷ 0 ∷ 0 ∷ 0 ∷ 0 ∷ 255 ∷ 255 ∷ []))
      (codes "::ffff:" ++ show_v4 (drop 12 o)) (show_v6_groups (segments o))
      (append-is_address_char (codes "::ffff:") (show_v4 (drop 12 o)) refl
        (show_v4-is_address_char (drop 12 o)))
      (show_v6_groups-is_address_char (segments o))

pub show_ip-is_address_char : (a : IpAddr) → is_plain_address (show_ip a) ≡ true
unfolding show_ip
show_ip-is_address_char (v4 o) = show_v4-is_address_char o
show_ip-is_address_char (v6 o) = show_v6-is_address_char o

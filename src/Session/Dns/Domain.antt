-- ===== src/Session/Dns/Domain.antt =====
-- The search domains that daemon/src/session/dns.rs takes.
use thisconnect.Prelude.{
  some-injective, ℕ, ◌≤◌, ◌≡◌, refl, sym, subst, ◌∙◌, inl, inr, Bool, true, false, ◌&&◌, ◌||◌, none,
  some, List, [], ◌∷◌, arith, ltb, ◌==◌, if◌then◌else◌, Bool-cases, and-left, and-right, is_empty,
  all, All,
}
use thisconnect.Prelude.Text.{
  utf8_width, Text, text_eq, within, is_ascii_digit, is_ascii_alphanumeric, ascii_lower,
  to_ascii_lowercase, byte_len,
}
use thisconnect.Prelude.Split.{split, onto_head}
use thisconnect.Proxy.Socks5.Limiter.{same_ip}
use thisconnect.Session.Dns.{PushReply, max_domain_bytes}
use thisconnect.Session.Dns.Accumulator.{
  is_label_char, is_sane_label, normalise_trimmed, normalise_domain, trim_end_matches,
}

-- A character of a domain in lower case.
abbrev pub is_domain_char : ℕ → Bool
is_domain_char c = is_ascii_digit c || within b'a' b'z' c || c == b'-' || c == b'_' || c == b'.'

-- A search domain that is safe to hand on.
abbrev pub IsDomain : Text → Type 0
IsDomain d = (is_empty d ≡ false) × (byte_len d ≤ max_domain_bytes) × (all is_domain_char d ≡ true)

-- No element is the same as one before it.
abbrev pub IsDistinct : {A : Type 0} → (A → A → Bool) → List A → Type 0
IsDistinct same [] = Unit
IsDistinct same (x ∷ xs) = All (λ y. same y x ≡ false) xs × IsDistinct same xs

pub record IsSane (r : PushReply) : Type 0 where
  pub domains : All IsDomain r.search_domains
  pub domains_once : IsDistinct text_eq r.search_domains
  pub servers_once : IsDistinct same_ip r.nameservers

sane_chars : (label : Text) → is_sane_label label ≡ true → all is_label_char label ≡ true
unfolding is_sane_label
sane_chars label h = ground (arith, h)

abbrev is_host_char : ℕ → Bool
is_host_char c = is_label_char c || c == b'.'

-- Every part of a split has only label characters.
abbrev all_labels : List Text → Bool
all_labels ls = all (λ l. all is_label_char l) ls

all_sane_chars : (ls : List Text) → all is_sane_label ls ≡ true → all_labels ls ≡ true
all_sane_chars [] h = refl
all_sane_chars (l ∷ ls) h =
    rw
      (
        sane_chars l (and-left (is_sane_label l) (all is_sane_label ls) h),
        all_sane_chars ls (and-right (is_sane_label l) (all is_sane_label ls) h),
      )
      refl

labels_onto_head :
    (x : ℕ) (ls : List Text)
    → all_labels (onto_head x ls) ≡ true
    → (is_label_char x ≡ true) × (all_labels ls ≡ true)
labels_onto_head x [] h = (ground (arith, h), refl)
labels_onto_head x (l ∷ ls) h =
    let front = and-left (is_label_char x && all is_label_char l) (all_labels ls) h in
    let back = and-right (is_label_char x && all is_label_char l) (all_labels ls) h in
    (
      and-left (is_label_char x) (all is_label_char l) front,
      rw (and-right (is_label_char x) (all is_label_char l) front, back) refl,
    )

split_chars : (s : Text) → all_labels (split b'.' s) ≡ true → all is_host_char s ≡ true
unfolding split
split_chars [] h = refl
split_chars (x ∷ s) h = elim (Bool-cases (x == b'.')) [
  | inl dot ↦
      let labels : all_labels (split b'.' s) ≡ true = sym (rw dot refl) ∙ h in
      rw (dot, split_chars s labels) (ground arith)
  | inr plain ↦
      let both : all_labels (onto_head x (split b'.' s)) ≡ true = sym (rw plain refl) ∙ h in
      let (label, labels) = labels_onto_head x (split b'.' s) both in
      rw (label, split_chars s labels) refl
]

lower_is_domain_char : (c : ℕ) → is_host_char c ≡ true → is_domain_char (ascii_lower c) ≡ true
unfolding is_ascii_alphanumeric
lower_is_domain_char c h = ground (arith, h)

lower_chars :
    (s : Text) → all is_host_char s ≡ true → all is_domain_char (to_ascii_lowercase s) ≡ true
unfolding to_ascii_lowercase
lower_chars [] h = refl
lower_chars (c ∷ s) h =
    rw
      (
        lower_is_domain_char c (and-left (is_host_char c) (all is_host_char s) h),
        lower_chars s (and-right (is_host_char c) (all is_host_char s) h),
      )
      refl

lower_width : (c : ℕ) → utf8_width (ascii_lower c) ≡ utf8_width c
lower_width c = ground arith

byte_len-lower : (s : Text) → byte_len (to_ascii_lowercase s) ≡ byte_len s
unfolding byte_len to_ascii_lowercase
byte_len-lower [] = refl
byte_len-lower (c ∷ s) = omega (arith, lower_width c, byte_len-lower s)

lower_empty : (s : Text) → is_empty (to_ascii_lowercase s) ≡ is_empty s
unfolding to_ascii_lowercase
lower_empty [] = refl
lower_empty (c ∷ s) = refl

none_test :
    (b c : Bool) (x d : Text)
    → (if b then none else if c then some x else none) ≡ some d
    → (b ≡ false) × (c ≡ true) × (x ≡ d)
none_test true c x d h = cc
none_test false true x d h = (refl, refl, some-injective h)
none_test false false x d h = cc

normalise_trimmed-IsDomain : (t d : Text) → normalise_trimmed t ≡ some d → IsDomain d
unfolding normalise_trimmed
normalise_trimmed-IsDomain t d h =
    let (fits, sane, same) =
      none_test (is_empty t || ltb max_domain_bytes (byte_len t)) (all is_sane_label (split b'.' t))
        _ d h in
    subst IsDomain same (
      lower_empty t ∙ ground (arith, fits),
      ground (arith, fits, byte_len-lower t),
      lower_chars t (split_chars t (all_sane_chars (split b'.' t) sane)),
    )

pub normalise_domain-IsDomain : (value d : Text) → normalise_domain value ≡ some d → IsDomain d
unfolding normalise_domain
normalise_domain-IsDomain value d h =
    normalise_trimmed-IsDomain (trim_end_matches (λ c. c == b'.') value) d h

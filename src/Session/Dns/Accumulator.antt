-- ===== src/Session/Dns/Accumulator.antt =====
-- The reading of a PUSH_REPLY in daemon/src/session/dns.rs, option by option.
use mathlib.Core.List.{reverse}
use thisconnect.Prelude.{
  ℕ, ◌+◌, ◌-◌, min, Bool, true, false, not, ◌&&◌, ◌||◌, Option, none, some, List, [], ◌∷◌, ◌++◌,
  ltb, leb, ◌==◌, if◌then◌else◌, is_empty, all, any, keep,
}
use thisconnect.Prelude.Text.{
  Text, codes, one_of, strip_prefix, within, is_ascii_alphanumeric, to_ascii_lowercase,
  is_whitespace, trim, byte_len,
}
use thisconnect.Prelude.Split.{split, split_once, rsplit_once, split_once_text, u64_max}
use thisconnect.Net.{IpAddr, parse_ip}
use thisconnect.Proxy.Socks5.Limiter.{same_ip}
use thisconnect.Session.Dns.{PushReply, max_push_reply_bytes, max_domain_bytes, max_label_bytes}

abbrev pub skip_while : (ℕ → Bool) → Text → Text
skip_while p [] = []
skip_while p (c ∷ cs) = let rest = skip_while p cs in if p c then rest else c ∷ cs

-- `s.trim_end_matches(..)`
unfoldable pub trim_end_matches : (ℕ → Bool) → Text → Text
trim_end_matches p s = reverse (skip_while p (reverse s))

abbrev onto_word : ℕ → List Text → List Text
onto_word c [] = (c ∷ []) ∷ []
onto_word c (l ∷ ls) = (c ∷ l) ∷ ls

-- The pieces between single whitespace characters, some of them empty.
unfoldable pub pieces : Text → List Text
unfolding is_whitespace
pieces [] = [] ∷ []
pieces (c ∷ cs) = let rest = pieces cs in if is_whitespace c then [] ∷ rest else onto_word c rest

-- `s.split_whitespace()`
unfoldable pub split_whitespace : Text → List Text
unfolding pieces
split_whitespace s = keep (λ w. not (is_empty w)) (pieces s)

abbrev ascii_upper : ℕ → ℕ
ascii_upper c = if within b'a' b'z' c then c - 32 else c

unfoldable pub to_ascii_uppercase : Text → Text
to_ascii_uppercase [] = []
to_ascii_uppercase (c ∷ cs) = ascii_upper c ∷ to_ascii_uppercase cs

abbrev pub is_quote : ℕ → Bool
is_quote c = c == b'\'' || c == b'"'

abbrev pub or_whole : Option Text → Text → Text
or_whole none s = s
or_whole (some rest) s = rest

abbrev pub second : Option (Text × Text) → Option Text
second none = none
second (some (a, b)) = some b

abbrev pub first : Option (Text × Text) → Option Text
first none = none
first (some (a, b)) = some a

unfoldable pub body_of : Option Text → Option Text
unfolding split_once_text strip_prefix trim trim_end_matches
body_of none = none
body_of (some after_marker) = elim (second (split_once_text (codes "PUSH_REPLY") after_marker)) [
  | none ↦ none
  | some after_kind ↦
      some (
        trim_end_matches is_quote
          (trim (or_whole (strip_prefix (codes ",") after_kind) after_kind)))
]

unfoldable pub push_reply_payload : Text → Option Text
unfolding byte_len body_of split_once_text
push_reply_payload text =
    if ltb max_push_reply_bytes (byte_len text)
    then none
    else body_of (second (split_once_text (codes "Received control message:") text))

pub record Accumulator : Type 0 where
  pub reply : PushReply
  pub in_dns_address_list : Bool

-- the address of a host with a port behind it
unfoldable pub host_part : Text → Option Text
unfolding strip_prefix split_once rsplit_once
host_part token = elim (strip_prefix (codes "[") token) [
  | some rest ↦ first (split_once b']' rest)
  | none ↦ first (rsplit_once b':' token)
]

unfoldable pub parse_address : Text → Option IpAddr
unfolding parse_ip host_part
parse_address token = elim (parse_ip token) [
  | some address ↦ some address
  | none ↦ elim (host_part token) [ none ↦ none | some head ↦ parse_ip head ]
]

abbrev pub is_label_char : ℕ → Bool
is_label_char c = is_ascii_alphanumeric c || c == b'-' || c == b'_'

unfoldable pub is_sane_label : Text → Bool
unfolding byte_len is_ascii_alphanumeric
is_sane_label label =
    not (is_empty label) && leb (byte_len label) max_label_bytes && all is_label_char label

unfoldable pub normalise_trimmed : Text → Option Text
unfolding byte_len is_sane_label split to_ascii_lowercase
normalise_trimmed trimmed =
    if is_empty trimmed || ltb max_domain_bytes (byte_len trimmed)
    then none
    else if all is_sane_label (split b'.' trimmed)
    then some (to_ascii_lowercase trimmed)
    else none

unfoldable pub normalise_domain : Text → Option Text
unfolding trim_end_matches normalise_trimmed
normalise_domain value = normalise_trimmed (trim_end_matches (λ c. c == b'.') value)

abbrev pub saturating_suc : ℕ → ℕ
saturating_suc n = min (n + 1) u64_max

abbrev pub with_dropped_address : Accumulator → Accumulator
with_dropped_address a = record a {
  reply = record a.reply { dropped_addresses = saturating_suc a.reply.dropped_addresses };
}

abbrev pub with_dropped_domain : Accumulator → Accumulator
with_dropped_domain a = record a {
  reply = record a.reply { dropped_domains = saturating_suc a.reply.dropped_domains };
}

unfoldable pub with_parsed_address : Accumulator → IpAddr → Accumulator
unfolding same_ip
with_parsed_address a address =
    if any (same_ip address) a.reply.nameservers
    then a
    else record a { reply = record a.reply { nameservers = a.reply.nameservers ++ (address ∷ []) } }

abbrev pub with_address_of : Accumulator → Option IpAddr → Accumulator
with_address_of a none = with_dropped_address a
with_address_of a (some address) = with_parsed_address a address

unfoldable pub with_address : Accumulator → Text → Accumulator
unfolding parse_address
with_address a value = with_address_of a (parse_address value)

unfoldable pub with_domain_of : Accumulator → Option Text → Accumulator
unfolding one_of
with_domain_of a none = with_dropped_domain a
with_domain_of a (some domain) = if one_of domain a.reply.search_domains then a else record a {
  reply = record a.reply { search_domains = a.reply.search_domains ++ (domain ∷ []) };
}

unfoldable pub with_domain : Accumulator → Text → Accumulator
unfolding normalise_domain with_domain_of
with_domain a value = with_domain_of a (normalise_domain value)

abbrev pub with_ipv6 : Accumulator → Accumulator
with_ipv6 a = record a { reply = record a.reply { has_ipv6 = true } }

abbrev pub without_continuation : Accumulator → Accumulator
without_continuation a = record a { in_dns_address_list = false }

abbrev pub expecting_more_addresses : Accumulator → Accumulator
expecting_more_addresses a = record a { in_dns_address_list = true }

abbrev pub fold :
    {B : Type 0} → (Accumulator → B → Accumulator) → Accumulator → List B → Accumulator
fold f a [] = a
fold f a (x ∷ xs) = fold f (f a x) xs

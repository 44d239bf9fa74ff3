-- ===== src/Session/Dns/Options.antt =====
-- The options of a PUSH_REPLY that daemon/src/session/dns.rs takes up.
use thisconnect.Prelude.{false, not, Option, none, some, List, [], ◌∷◌, if◌then◌else◌}
use thisconnect.Prelude.Text.{Text, Bytes, codes, text_eq, one_of, to_ascii_lowercase, trim}
use thisconnect.Prelude.Split.{split}
use thisconnect.Net.{IpAddr, parse_v4}
use thisconnect.Session.Dns.{PushReply, empty_reply}
use thisconnect.Session.Dns.Accumulator.{
  Accumulator, split_whitespace, to_ascii_uppercase, push_reply_payload, parse_address,
  with_dropped_address, with_dropped_domain, with_parsed_address, with_address, with_domain,
  with_ipv6, without_continuation, expecting_more_addresses, fold,
}

-- `tokens.next().unwrap_or_default()`, and the tokens behind it
abbrev pub next_or_empty : List Text → Text
next_or_empty [] = []
next_or_empty (t ∷ ts) = t

abbrev pub behind : List Text → List Text
behind [] = []
behind (t ∷ ts) = ts

abbrev pub with_next :
    (Accumulator → Text → Accumulator)
    → (Accumulator → Accumulator)
    → Accumulator
    → List Text
    → Accumulator
with_next f missing a [] = missing a
with_next f missing a (t ∷ ts) = f a t

unfoldable pub absorb_dhcp_option : Accumulator → List Text → Accumulator
unfolding to_ascii_uppercase with_address with_domain one_of
absorb_dhcp_option a tokens =
    let kind = to_ascii_uppercase (next_or_empty tokens) in
    if one_of kind (codes "DNS" ∷ codes "DNS6" ∷ [])
    then with_next with_address with_dropped_address a (behind tokens)
    else if one_of kind (codes "DOMAIN" ∷ codes "ADOMAIN" ∷ codes "DOMAIN-SEARCH" ∷ [])
    then with_next with_domain with_dropped_domain a (behind tokens)
    else a

-- `server`, its priority, and then what it gives
unfoldable pub absorb_server : Accumulator → List Text → Accumulator
unfolding to_ascii_lowercase text_eq with_address
absorb_server a tokens =
    if text_eq (to_ascii_lowercase (next_or_empty (behind tokens))) (codes "address")
    then expecting_more_addresses (fold with_address a (behind (behind tokens)))
    else a

unfoldable pub absorb_dns : Accumulator → List Text → Accumulator
unfolding to_ascii_lowercase text_eq absorb_server with_domain
absorb_dns a tokens =
    if text_eq (to_ascii_lowercase (next_or_empty tokens)) (codes "server")
    then absorb_server a (behind tokens)
    else if text_eq (to_ascii_lowercase (next_or_empty tokens)) (codes "search-domains")
    then fold with_domain a (behind tokens)
    else a

unfoldable pub with_ifconfig : Accumulator → Option Bytes → Option Bytes → Accumulator
with_ifconfig a (some local) (some peer) = record a {
  reply = record a.reply { ifconfig = some (record { local = local; peer_or_netmask = peer }) };
}
with_ifconfig a _ _ = with_dropped_address a

unfoldable pub v4_of : List Text → Option Bytes
unfolding parse_v4
v4_of [] = none
v4_of (t ∷ ts) = parse_v4 t

unfoldable pub absorb_ifconfig : Accumulator → List Text → Accumulator
unfolding v4_of with_ifconfig
absorb_ifconfig a tokens = with_ifconfig a (v4_of tokens) (v4_of (behind tokens))

abbrev pub cons_some : Option IpAddr → Option (List IpAddr) → Option (List IpAddr)
cons_some (some x) (some xs) = some (x ∷ xs)
cons_some _ _ = none

-- `map(parse_address).collect::<Option<Vec<_>>>()`
unfoldable pub parse_addresses : List Text → Option (List IpAddr)
unfolding parse_address
parse_addresses [] = some []
parse_addresses (t ∷ ts) = cons_some (parse_address t) (parse_addresses ts)

unfoldable pub with_addresses : Accumulator → Option (List IpAddr) → Accumulator
unfolding with_parsed_address
with_addresses a none = without_continuation a
with_addresses a (some []) = without_continuation a
with_addresses a (some (x ∷ xs)) = fold with_parsed_address a (x ∷ xs)

unfoldable pub absorb_address_continuation : Accumulator → Text → Accumulator
unfolding split_whitespace parse_addresses with_addresses
absorb_address_continuation a option =
    if not a.in_dns_address_list
    then without_continuation a
    else with_addresses a (parse_addresses (split_whitespace option))

-- one option, by its keyword
unfoldable pub absorb_keyword : Accumulator → Text → Text → List Text → Accumulator
unfolding text_eq one_of absorb_dhcp_option absorb_dns absorb_ifconfig absorb_address_continuation
absorb_keyword a option keyword tokens =
    if text_eq keyword (codes "dhcp-option")
    then absorb_dhcp_option (without_continuation a) tokens
    else if text_eq keyword (codes "dns")
    then absorb_dns (without_continuation a) tokens
    else if text_eq keyword (codes "ifconfig")
    then absorb_ifconfig (without_continuation a) tokens
    else if one_of keyword (codes "ifconfig-ipv6" ∷ codes "route-ipv6" ∷ codes "tun-ipv6" ∷ [])
    then with_ipv6 (without_continuation a)
    else absorb_address_continuation a option

unfoldable pub absorb_tokens : Accumulator → Text → List Text → Accumulator
unfolding to_ascii_lowercase absorb_keyword
absorb_tokens a option [] = without_continuation a
absorb_tokens a option (keyword ∷ tokens) =
    absorb_keyword a option (to_ascii_lowercase keyword) tokens

unfoldable pub absorb : Accumulator → Text → Accumulator
unfolding split_whitespace absorb_tokens
absorb a option = absorb_tokens a option (split_whitespace option)

abbrev pub fresh : Accumulator
fresh = record { reply = empty_reply; in_dns_address_list = false }

-- `split(',').map(str::trim).fold(..)`
unfoldable pub parse_payload : Text → PushReply
unfolding split trim absorb
parse_payload payload = (fold (λ a option. absorb a (trim option)) fresh (split b',' payload)).reply

-- `PushReply::from_log_text`
unfoldable pub from_log_text : Text → Option PushReply
unfolding push_reply_payload parse_payload
from_log_text text = elim (push_reply_payload text) [
  | none ↦ none
  | some payload ↦ some (parse_payload payload)
]

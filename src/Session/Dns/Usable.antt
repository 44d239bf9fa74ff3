-- ===== src/Session/Dns/Usable.antt =====
-- What daemon/src/session/dns.rs captures from a PUSH_REPLY.
use thisconnect.Prelude.{
  some-injective, ◌≡◌, refl, subst, inl, inr, Bool, true, false, not, ◌||◌, Option, none, some,
  List, [], ◌∷◌, if◌then◌else◌, Bool-cases, is_empty, all, keep, All,
}
use thisconnect.Prelude.Text.{Text, Bytes, codes, text_eq, one_of, to_ascii_lowercase, trim}
use thisconnect.Prelude.Split.{split}
use thisconnect.Net.{IpAddr, is_ipv6}
use thisconnect.Proxy.Socks5.Limiter.{same_ip}
use thisconnect.Session.Dns.{
  PushReply, TunnelDns, captured, missing, is_usable, capture, missing_reason,
}
use thisconnect.Session.Dns.Accumulator.{
  Accumulator, to_ascii_uppercase, push_reply_payload, split_whitespace, with_dropped_address,
  with_dropped_domain, with_parsed_address, with_address, with_domain, without_continuation,
}
use thisconnect.Session.Dns.Options.{
  next_or_empty, behind, with_next, absorb_dhcp_option, absorb_server, absorb_dns, with_ifconfig,
  v4_of, absorb_ifconfig, parse_addresses, with_addresses, absorb_address_continuation,
  absorb_keyword, absorb_tokens, absorb, fresh, parse_payload, from_log_text,
}
use thisconnect.Session.Dns.Domain.{IsDomain, IsDistinct, IsSane}
use thisconnect.Session.Dns.Sane.{
  with_parsed_address-IsSane, with_domain-IsSane, with_address-IsSane, fold-IsSane,
}

abbrev Keeps : Accumulator → Type 0
Keeps a = IsSane a.reply

if-Keeps : (b : Bool) (x y : Accumulator) → Keeps x → Keeps y → Keeps (if b then x else y)
if-Keeps true x y h k = h
if-Keeps false x y h k = k

with_next-IsSane :
    (f : Accumulator → Text → Accumulator) (g : Accumulator → Accumulator) (a : Accumulator)
    (ts : List Text)
    → ((t : Text) → Keeps (f a t))
    → Keeps (g a)
    → Keeps (with_next f g a ts)
with_next-IsSane f g a [] h k = k
with_next-IsSane f g a (t ∷ ts) h k = h t

-- counting what was dropped changes nothing else
dropped_address : (a : Accumulator) → Keeps a → Keeps (with_dropped_address a)
dropped_address a h = record {
  domains = h.domains;
  domains_once = h.domains_once;
  servers_once = h.servers_once;
}

dropped_domain : (a : Accumulator) → Keeps a → Keeps (with_dropped_domain a)
dropped_domain a h = record {
  domains = h.domains;
  domains_once = h.domains_once;
  servers_once = h.servers_once;
}

absorb_dhcp_option-IsSane :
    (a : Accumulator) (ts : List Text) → Keeps a → Keeps (absorb_dhcp_option a ts)
unfolding absorb_dhcp_option
absorb_dhcp_option-IsSane a ts h =
    let kind = to_ascii_uppercase (next_or_empty ts) in
    if-Keeps (one_of kind (codes "DNS" ∷ codes "DNS6" ∷ [])) _ _
      (with_next-IsSane with_address with_dropped_address a (behind ts)
        (λ t. with_address-IsSane a t h) (dropped_address a h))
      (if-Keeps (one_of kind (codes "DOMAIN" ∷ codes "ADOMAIN" ∷ codes "DOMAIN-SEARCH" ∷ [])) _ _
        (with_next-IsSane with_domain with_dropped_domain a (behind ts)
          (λ t. with_domain-IsSane a t h) (dropped_domain a h))
        h)

absorb_dns-IsSane : (a : Accumulator) (ts : List Text) → Keeps a → Keeps (absorb_dns a ts)
unfolding absorb_dns absorb_server
absorb_dns-IsSane a ts h =
    if-Keeps (text_eq (to_ascii_lowercase (next_or_empty ts)) (codes "server")) _ _
      (if-Keeps
        (text_eq (to_ascii_lowercase (next_or_empty (behind (behind ts)))) (codes "address")) _ _
        (fold-IsSane with_address a (behind (behind (behind ts))) with_address-IsSane h) h)
      (if-Keeps (text_eq (to_ascii_lowercase (next_or_empty ts)) (codes "search-domains")) _ _
        (fold-IsSane with_domain a (behind ts) with_domain-IsSane h) h)

with_ifconfig-IsSane :
    (a : Accumulator) (m n : Option Bytes) → Keeps a → Keeps (with_ifconfig a m n)
unfolding with_ifconfig
with_ifconfig-IsSane a (some local) (some peer) h = record {
  domains = h.domains;
  domains_once = h.domains_once;
  servers_once = h.servers_once;
}
with_ifconfig-IsSane a (some local) none h = dropped_address a h
with_ifconfig-IsSane a none n h = dropped_address a h

with_addresses-IsSane :
    (a : Accumulator) (m : Option (List IpAddr)) → Keeps a → Keeps (with_addresses a m)
unfolding with_addresses
with_addresses-IsSane a none h = h
with_addresses-IsSane a (some []) h = h
with_addresses-IsSane a (some (x ∷ xs)) h =
    fold-IsSane with_parsed_address a (x ∷ xs) with_parsed_address-IsSane h

absorb_keyword-IsSane :
    (a : Accumulator) (option keyword : Text) (ts : List Text)
    → Keeps a
    → Keeps (absorb_keyword a option keyword ts)
unfolding absorb_keyword absorb_ifconfig absorb_address_continuation
absorb_keyword-IsSane a option keyword ts h =
    if-Keeps (text_eq keyword (codes "dhcp-option")) _ _
      (absorb_dhcp_option-IsSane (without_continuation a) ts h)
      (if-Keeps (text_eq keyword (codes "dns")) _ _
        (absorb_dns-IsSane (without_continuation a) ts h)
        (if-Keeps (text_eq keyword (codes "ifconfig")) _ _
          (with_ifconfig-IsSane (without_continuation a) (v4_of ts) (v4_of (behind ts)) h)
          (if-Keeps
            (one_of keyword (codes "ifconfig-ipv6" ∷ codes "route-ipv6" ∷ codes "tun-ipv6" ∷ [])) _
            _
            (record {
              domains = h.domains;
              domains_once = h.domains_once;
              servers_once = h.servers_once;
            })
            (if-Keeps (not a.in_dns_address_list) _ _ h
              (with_addresses-IsSane a (parse_addresses (split_whitespace option)) h)))))

absorb_tokens-IsSane :
    (a : Accumulator) (option : Text) (ts : List Text) → Keeps a → Keeps (absorb_tokens a option ts)
unfolding absorb_tokens
absorb_tokens-IsSane a option [] h = h
absorb_tokens-IsSane a option (k ∷ ts) h =
    absorb_keyword-IsSane a option (to_ascii_lowercase k) ts h

parse_payload-IsSane : (payload : Text) → IsSane (parse_payload payload)
unfolding parse_payload absorb
parse_payload-IsSane payload =
    fold-IsSane (λ a option. absorb a (trim option)) fresh (split b',' payload)
      (λ a option h. absorb_tokens-IsSane a (trim option) (split_whitespace (trim option)) h)
      (record { domains = tt; domains_once = tt; servers_once = tt })

from_payload :
    (m : Option Text) (r : PushReply)
    → (elim m [ none ↦ none | some payload ↦ some (parse_payload payload) ]) ≡ some r
    → IsSane r
from_payload none r h = cc
from_payload (some payload) r h = subst IsSane (some-injective h) (parse_payload-IsSane payload)

from_log_text-IsSane : (text : Text) (r : PushReply) → from_log_text text ≡ some r → IsSane r
unfolding from_log_text
from_log_text-IsSane text r h = from_payload (push_reply_payload text) r h

-- What the proxy is given of a PUSH_REPLY.
pub record IsTrusted (r : PushReply) (d : TunnelDns) : Type 0 where
  pub some_server : is_empty d.nameservers ≡ false
  pub reachable : all (λ s. d.tunnel_has_v6 || not (is_ipv6 s)) d.nameservers ≡ true
  pub servers : d.nameservers ≡ keep (is_usable r) r.nameservers
  pub servers_once : IsDistinct same_ip r.nameservers
  pub domains : All IsDomain d.search_domains
  pub domains_once : IsDistinct text_eq d.search_domains

all_kept : (p : IpAddr → Bool) (xs : List IpAddr) → all p (keep p xs) ≡ true
all_kept p [] = refl
all_kept p (x ∷ xs) = elim (Bool-cases (p x)) [
  | inl kept ↦ rw (kept, kept, all_kept p xs) refl
  | inr left ↦ rw (left, all_kept p xs) refl
]

captured_same : (e d : TunnelDns) → captured e ≡ captured d → e ≡ d
captured_same e d h = cc

capture_parts :
    (b : Bool) (r : PushReply) (d e : TunnelDns)
    → (if b then missing (missing_reason r) else captured e) ≡ captured d
    → (b ≡ false) × (e ≡ d)
capture_parts true r d e h = cc
capture_parts false r d e h = (refl, captured_same e d h)

-- Where a PUSH_REPLY is captured, there is at least one name server; each is one that the tunnel
-- can reach, so an IPv6 address only where the reply brought IPv6, and none of those that were
-- read is listed twice. Every search domain is 1 to 253 bytes of lower-case letters, digits,
-- dashes, underscores and dots, and none is listed twice, whatever the server wrote.
pub capture-IsTrusted :
    (text : Text) (r : PushReply) (d : TunnelDns)
    → from_log_text text ≡ some r
    → capture r ≡ captured d
    → IsTrusted r d
unfolding capture
capture-IsTrusted text r d h k =
    let (some_server, same) = capture_parts (is_empty (keep (is_usable r) r.nameservers)) r d _ k in
    let sane = from_log_text-IsSane text r h in
    subst (IsTrusted r) same (record {
      some_server = some_server;
      reachable = all_kept (is_usable r) r.nameservers;
      servers = refl;
      servers_once = sane.servers_once;
      domains = sane.domains;
      domains_once = sane.domains_once;
    })

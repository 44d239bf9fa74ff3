-- ===== src/Session/Dns/Sane.antt =====
-- What daemon/src/session/dns.rs keeps of a PUSH_REPLY, whatever the server wrote in it.
use thisconnect.Prelude.{
  ◌≡◌, refl, ap, ◌∙◌, Bool, true, false, ◌||◌, Option, none, some, List, [], ◌∷◌, ◌++◌, arith,
  if◌then◌else◌, any, All-append,
}
use thisconnect.Prelude.Text.{Text, text_eq, one_of}
use thisconnect.Net.{IpAddr}
use thisconnect.Proxy.Socks5.Limiter.{same_ip}
use thisconnect.Session.Dns.Accumulator.{
  Accumulator, normalise_domain, parse_address, with_parsed_address, with_address_of, with_address,
  with_domain_of, with_domain, fold,
}
use thisconnect.Session.Dns.Domain.{IsDomain, IsDistinct, IsSane, normalise_domain-IsDomain}

-- One element more, which was not there.
IsDistinct-append :
    {A : Type 0} (same : A → A → Bool) (xs : List A) (y : A)
    → IsDistinct same xs
    → any (same y) xs ≡ false
    → IsDistinct same (xs ++ (y ∷ []))
IsDistinct-append same [] y h k = (tt, tt)
IsDistinct-append same (x ∷ xs) y (h, hs) k = (
  All-append (λ z. same z x ≡ false) xs (y ∷ []) h (ground (arith, k), tt),
  IsDistinct-append same xs y hs (ground (arith, k)),
)

if_kept :
    {A : Type 0} (P : A → Type 0) (b : Bool) (x y : A)
    → (b ≡ true → P x)
    → (b ≡ false → P y)
    → P (if b then x else y)
if_kept P true x y h k = h refl
if_kept P false x y h k = k refl

any-one_of : (d : Text) (ds : List Text) → any (text_eq d) ds ≡ one_of d ds
unfolding one_of
any-one_of d [] = refl
any-one_of d (x ∷ ds) = ap (λ b. text_eq d x || b) (any-one_of d ds)

pub with_parsed_address-IsSane :
    (a : Accumulator) (address : IpAddr)
    → IsSane a.reply
    → IsSane (with_parsed_address a address).reply
unfolding with_parsed_address
with_parsed_address-IsSane a address h =
    if_kept (λ (x : Accumulator). IsSane x.reply) (any (same_ip address) a.reply.nameservers) a _
      (λ _. h)
      λ k. record {
        domains = h.domains;
        domains_once = h.domains_once;
        servers_once = IsDistinct-append same_ip a.reply.nameservers address h.servers_once k;
      }

with_domain_of-IsSane :
    (a : Accumulator) (m : Option Text)
    → ((d : Text) → m ≡ some d → IsDomain d)
    → IsSane a.reply
    → IsSane (with_domain_of a m).reply
unfolding with_domain_of
with_domain_of-IsSane a none f h = record {
  domains = h.domains;
  domains_once = h.domains_once;
  servers_once = h.servers_once;
}
with_domain_of-IsSane a (some d) f h =
    if_kept (λ (x : Accumulator). IsSane x.reply) (one_of d a.reply.search_domains) a _ (λ _. h)
      λ k. record {
        domains = All-append IsDomain a.reply.search_domains (d ∷ []) h.domains (f d refl, tt);
        domains_once =
            IsDistinct-append text_eq a.reply.search_domains d h.domains_once
              (any-one_of d a.reply.search_domains ∙ k);
        servers_once = h.servers_once;
      }

pub with_domain-IsSane :
    (a : Accumulator) (value : Text) → IsSane a.reply → IsSane (with_domain a value).reply
unfolding with_domain
with_domain-IsSane a value h =
    with_domain_of-IsSane a (normalise_domain value) (normalise_domain-IsDomain value) h

with_address_of-IsSane :
    (a : Accumulator) (m : Option IpAddr) → IsSane a.reply → IsSane (with_address_of a m).reply
with_address_of-IsSane a none h = record {
  domains = h.domains;
  domains_once = h.domains_once;
  servers_once = h.servers_once;
}
with_address_of-IsSane a (some address) h = with_parsed_address-IsSane a address h

pub with_address-IsSane :
    (a : Accumulator) (value : Text) → IsSane a.reply → IsSane (with_address a value).reply
unfolding with_address
with_address-IsSane a value h = with_address_of-IsSane a (parse_address value) h

pub fold-IsSane :
    {B : Type 0} (f : Accumulator → B → Accumulator) (a : Accumulator) (xs : List B)
    → ((b : Accumulator) (x : B) → IsSane b.reply → IsSane (f b x).reply)
    → IsSane a.reply
    → IsSane (fold f a xs).reply
fold-IsSane f a [] g h = h
fold-IsSane f a (x ∷ xs) g h = fold-IsSane f (f a x) xs g (g a x h)

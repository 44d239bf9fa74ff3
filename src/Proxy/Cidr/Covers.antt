-- ===== src/Proxy/Cidr/Covers.antt =====
-- Which peers a block of proxy/src/listener/cidr.rs covers.
use thisconnect.Prelude.{
  length-drop, All-drop, ℕ, ◌*◌, ◌/◌, ◌%◌, ◌≤◌, ◌<◌, ◌≡◌, refl, sym, subst, ◌↔◌, ◌⊎◌, inl, inr,
  Bool, true, false, ◌||◌, List, [], ◌∷◌, arith, if◌then◌else◌, length, take, drop, any, All,
}
use thisconnect.Prelude.Text.{Bytes, text_eq}
use thisconnect.Net.{IpAddr, v4, v6}
use thisconnect.Proxy.Cidr.{
  Cidr, max_prefix, canonical, is_loopback, mapped_prefix, prefix_matches, same_family_matches,
  is_peer_allowed, contains,
}
use thisconnect.Prelude.Bits.{bits}
use thisconnect.Proxy.Cidr.Agree.{eights, eights-divided, agree_iff}

-- A block covers a peer of its own family that has its first bits.
abbrev pub Covers : IpAddr → ℕ → IpAddr → Type 0
Covers (v4 net) n (v4 peer) = take n (bits net) ≡ take n (bits peer)
Covers (v6 net) n (v6 peer) = take n (bits net) ≡ take n (bits peer)
Covers _ n _ = ⊥

abbrev pub octets : IpAddr → Bytes
octets (v4 o) = o
octets (v6 o) = o

abbrev pub octet_count : IpAddr → ℕ
octet_count (v4 o) = 4
octet_count (v6 o) = 16

-- An address as the standard library has it.
abbrev pub IsIp : IpAddr → Type 0
IsIp a = All (λ b. b < 256) (octets a) × (length (octets a) ≡ octet_count a)

-- A block that `Cidr::new` makes.
abbrev pub IsCidr : Cidr → Type 0
IsCidr c = IsIp c.network × (c.prefix_len ≤ max_prefix c.network)

prefix_matches_iff :
    (n : ℕ) (a b : Bytes)
    → All (λ x. x < 256) a
    → All (λ x. x < 256) b
    → length a ≡ length b
    → n ≤ 8 * length a
    → (prefix_matches a b n ≡ true) ↔ (take n (bits a) ≡ take n (bits b))
unfolding prefix_matches
prefix_matches_iff n a b p q e f =
    let whole : eights (n / 8) (n % 8) ≡ n = omega (arith, eights-divided (n / 8) (n % 8)) in
    let (to, from) = agree_iff (n / 8) (n % 8) a b p q e (omega (arith, f)) (omega arith) in
    (
      λ h. subst (λ m. take m (bits a) ≡ take m (bits b)) whole (to (ground (arith, h))),
      λ h.
          let agreed = from (subst (λ m. take m (bits a) ≡ take m (bits b)) (sym whole) h) in
          ground (arith, agreed),
    )

contains_at :
    (net peer : IpAddr) (n : ℕ)
    → IsIp net
    → IsIp peer
    → n ≤ max_prefix net
    → (same_family_matches net peer n ≡ true) ↔ Covers net n peer
unfolding same_family_matches max_prefix
contains_at (v4 a) (v4 b) n (p, r) (q, s) f =
    prefix_matches_iff n a b p q (omega (arith, r, s)) (omega (arith, r, f))
contains_at (v6 a) (v6 b) n (p, r) (q, s) f =
    prefix_matches_iff n a b p q (omega (arith, r, s)) (omega (arith, r, f))
contains_at (v4 a) (v6 b) n p q f = (λ h. cc, λ h. elim h [ ])
contains_at (v6 a) (v4 b) n p q f = (λ h. cc, λ h. elim h [ ])

canonical-IsIp : (a : IpAddr) → IsIp a → IsIp (canonical a)
unfolding canonical
canonical-IsIp (v4 o) h = h
canonical-IsIp (v6 o) (p, s) = go (text_eq (take 12 o) mapped_prefix)
  where
    go : (b : Bool) → IsIp (if b then v4 (drop 12 o) else v6 o)
    go true = (All-drop (λ b. b < 256) 12 o p, length-drop 12 4 o s)
    go false = (p, s)

-- Some block of a list covers a peer.
abbrev pub SomeCovers : List Cidr → IpAddr → Type 0
SomeCovers [] peer = ⊥
SomeCovers (c ∷ cs) peer = Covers c.network c.prefix_len peer ⊎ SomeCovers cs peer

some_or :
    {P Q : Type 0} {a b : Bool}
    → (a ≡ true → P)
    → (P → a ≡ true)
    → (b ≡ true → Q)
    → (Q → b ≡ true)
    → ((a || b) ≡ true) ↔ (P ⊎ Q)
some_or {a = true} to from later back = (λ _. inl (to refl), λ _. refl)
some_or {a = false} to from later back =
    (λ h. inr (later h), λ x. elim x [ inl p ↦ (let h = from p in cc) | inr q ↦ back q ])

loop_or :
    {Q : Type 0} {b : Bool} (a : Bool)
    → (b ≡ true) ↔ Q
    → ((if a then true else b) ≡ true) ↔ ((a ≡ true) ⊎ Q)
loop_or true h = (λ _. inl refl, λ _. refl)
loop_or false (to, from) = (λ h. inr (to h), λ x. elim x [ inl p ↦ cc | inr q ↦ from q ])

some_contains :
    (cs : List Cidr) (peer : IpAddr)
    → All IsCidr cs
    → IsIp peer
    → (any (λ c. same_family_matches c.network (canonical peer) c.prefix_len) cs ≡ true)
      ↔ SomeCovers cs (canonical peer)
some_contains [] peer h k = (λ e. cc, λ e. elim e [ ])
some_contains (c ∷ cs) peer (h, hs) k =
    let (to, from) =
      contains_at c.network (canonical peer) c.prefix_len (h.0) (canonical-IsIp peer k) (h.1) in
    let (later, back) = some_contains cs peer hs k in some_or to from later back

-- Whether a peer is admitted: it comes from loopback, or it shares with some listed block of its
-- own family as many first bits as the block's prefix is long. An IPv4 address mapped into IPv6
-- counts as the IPv4 address that it is. So an empty list admits loopback alone.
pub is_peer_allowed_iff :
    (peer : IpAddr) (allowed : List Cidr)
    → All IsCidr allowed
    → IsIp peer
    → (is_peer_allowed peer allowed ≡ true)
      ↔ ((is_loopback (canonical peer) ≡ true) ⊎ SomeCovers allowed (canonical peer))
unfolding is_peer_allowed contains
is_peer_allowed_iff peer allowed h k =
    loop_or (is_loopback (canonical peer)) (some_contains allowed peer h k)

-- ===== src/Proxy/Cidr.antt =====
-- proxy/src/listener/cidr.rs: the blocks of addresses that may use the proxy.
mod Agree
pub mod Covers
use thisconnect.Prelude.{
  ◌>>=◌, ℕ, ◌+◌, ◌-◌, ◌*◌, ◌/◌, ◌%◌, ◌^◌, Bool, true, false, not, Option, none, some, List, [], ◌∷◌,
  ◌++◌, ltb, ◌==◌, if◌then◌else◌, Result, ok, err, take, drop, get_elem?, any,
}
use thisconnect.Prelude.Text.{Text, Bytes, text_eq}
use Prim.Native.Nat.{bit_and}
use thisconnect.Prelude.Split.{split_once, parse_unsigned}
use thisconnect.Net.{IpAddr, v4, v6, parse_ip, show, show_ip}

pub data CidrError : Type 0 where
  not_an_address bad_prefix prefix_too_long : CidrError

pub record Cidr : Type 0 where
  pub network : IpAddr
  pub prefix_len : ℕ

unfoldable pub max_prefix : IpAddr → ℕ
max_prefix (v4 o) = 32
max_prefix (v6 o) = 128

-- `Cidr::new`
unfoldable pub new : IpAddr → ℕ → Result CidrError Cidr
unfolding max_prefix
new network prefix_len =
    if ltb (max_prefix network) prefix_len
    then err prefix_too_long
    else ok (record { network = network; prefix_len = prefix_len })

-- `Ipv6Addr::to_ipv4_mapped`
abbrev pub mapped_prefix : Bytes
mapped_prefix = 0 ∷ 0 ∷ 0 ∷ 0 ∷ 0 ∷ 0 ∷ 0 ∷ 0 ∷ 0 ∷ 0 ∷ 255 ∷ 255 ∷ []

unfoldable pub canonical : IpAddr → IpAddr
unfolding text_eq
canonical (v4 o) = v4 o
canonical (v6 o) = if text_eq (take 12 o) mapped_prefix then v4 (drop 12 o) else v6 o

-- `IpAddr::is_loopback`
unfoldable pub is_loopback : IpAddr → Bool
unfolding text_eq
is_loopback (v4 []) = false
is_loopback (v4 (a ∷ o)) = a == 127
is_loopback (v6 o) = text_eq o (0 ∷ 0 ∷ 0 ∷ 0 ∷ 0 ∷ 0 ∷ 0 ∷ 0 ∷ 0 ∷ 0 ∷ 0 ∷ 0 ∷ 0 ∷ 0 ∷ 0 ∷ 1 ∷ [])

-- `0xFFu8 << (8 - remainder)`
abbrev pub mask : ℕ → ℕ
mask remainder = 0xff * 2 ^ (8 - remainder) % 256

abbrev pub byte_at : Bytes → ℕ → ℕ
byte_at bytes i = elim (get_elem? bytes i) [ none ↦ 0 | some b ↦ b ]

-- what is left of a prefix behind its whole bytes
unfoldable pub remainder_matches : ℕ → ℕ → ℕ → Bool
remainder_matches remainder x y =
    if remainder == 0 then true else bit_and x (mask remainder) == bit_and y (mask remainder)

unfoldable pub prefix_matches : Bytes → Bytes → ℕ → Bool
unfolding text_eq remainder_matches
prefix_matches network peer prefix_len =
    if not (text_eq (take (prefix_len / 8) network) (take (prefix_len / 8) peer))
    then false
    else remainder_matches (prefix_len % 8) (byte_at network (prefix_len / 8))
        (byte_at peer (prefix_len / 8))

unfoldable pub same_family_matches : IpAddr → IpAddr → ℕ → Bool
unfolding prefix_matches
same_family_matches (v4 net) (v4 peer) prefix_len = prefix_matches net peer prefix_len
same_family_matches (v6 net) (v6 peer) prefix_len = prefix_matches net peer prefix_len
same_family_matches _ _ prefix_len = false

-- `Cidr::contains`
unfoldable pub contains : Cidr → IpAddr → Bool
unfolding canonical same_family_matches
contains c addr = same_family_matches c.network (canonical addr) c.prefix_len

-- `Display` and `FromStr` of a block
unfoldable pub show_cidr : Cidr → Text
unfolding show_ip show
show_cidr c = show_ip c.network ++ (b'/' ∷ show c.prefix_len)

unfoldable pub prefix_of : IpAddr → Option Text → Result CidrError ℕ
unfolding max_prefix parse_unsigned
prefix_of network none = ok (max_prefix network)
prefix_of network (some prefix) = elim (parse_unsigned 255 prefix) [
  | none ↦ err bad_prefix
  | some n ↦ ok n
]

unfoldable pub address_of : Text → Result CidrError IpAddr
unfolding parse_ip
address_of addr = elim (parse_ip addr) [ none ↦ err not_an_address | some a ↦ ok a ]

unfoldable pub block_of : Text → Option Text → Result CidrError Cidr
unfolding address_of prefix_of new
block_of addr prefix = do
  network ← address_of addr
  prefix_len ← prefix_of network prefix
  new network prefix_len

unfoldable pub from_str : Text → Result CidrError Cidr
unfolding split_once block_of
from_str value = elim (split_once b'/' value) [
  | some (addr, prefix) ↦ block_of addr (some prefix)
  | none ↦ block_of value none
]

unfoldable pub is_peer_allowed : IpAddr → List Cidr → Bool
unfolding canonical is_loopback contains
is_peer_allowed peer allowed =
    if is_loopback (canonical peer) then true else any (λ cidr. contains cidr peer) allowed

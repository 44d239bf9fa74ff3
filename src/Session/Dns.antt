-- ===== src/Session/Dns.antt =====
-- daemon/src/session/dns.rs: the name servers and search domains that the PUSH_REPLY of a tunnel
-- names, and what of them the proxy may use.
pub mod Accumulator
pub mod Options
mod Domain
pub mod Sane
pub mod Usable
mod Examples
use thisconnect.Prelude.{
  ℕ, Bool, false, not, ◌||◌, Option, none, List, [], ◌==◌, if◌then◌else◌, length, is_empty, keep,
}
use thisconnect.Prelude.Text.{Text, Bytes}
use thisconnect.Net.{IpAddr, is_ipv6}

abbrev pub max_push_reply_bytes : ℕ
max_push_reply_bytes = 8192

abbrev pub max_domain_bytes : ℕ
max_domain_bytes = 253

abbrev pub max_label_bytes : ℕ
max_label_bytes = 63

-- Two IPv4 addresses, by their octets.
pub record Ifconfig : Type 0 where
  pub local : Bytes
  pub peer_or_netmask : Bytes

pub record PushReply : Type 0 where
  pub nameservers : List IpAddr
  pub search_domains : List Text
  pub ifconfig : Option Ifconfig
  pub has_ipv6 : Bool
  pub dropped_addresses : ℕ
  pub dropped_domains : ℕ

abbrev pub empty_reply : PushReply
empty_reply = record {
  nameservers = [];
  search_domains = [];
  ifconfig = none;
  has_ipv6 = false;
  dropped_addresses = 0;
  dropped_domains = 0;
}

pub record TunnelDns : Type 0 where
  pub nameservers : List IpAddr
  pub search_domains : List Text
  pub tunnel_has_v6 : Bool

pub data MissingDns : Type 0 where
  no_push_reply no_dns_options : MissingDns
  all_addresses_malformed unreachable_family : ℕ → MissingDns

pub data DnsCapture : Type 0 where
  captured : TunnelDns → DnsCapture
  missing : MissingDns → DnsCapture

-- `PushReply::missing_reason`
unfoldable pub missing_reason : PushReply → MissingDns
missing_reason r =
    if not (is_empty r.nameservers)
    then unreachable_family (length r.nameservers)
    else if r.dropped_addresses == 0
    then no_dns_options
    else all_addresses_malformed r.dropped_addresses

abbrev pub is_usable : PushReply → IpAddr → Bool
is_usable r server = r.has_ipv6 || not (is_ipv6 server)

-- `PushReply::capture`
unfoldable pub capture : PushReply → DnsCapture
unfolding missing_reason
capture r =
    if is_empty (keep (is_usable r) r.nameservers)
    then missing (missing_reason r)
    else captured (record {
      nameservers = keep (is_usable r) r.nameservers;
      search_domains = r.search_domains;
      tunnel_has_v6 = r.has_ipv6;
    })

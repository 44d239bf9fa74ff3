-- ===== src/Proxy/Stats.antt =====
-- proxy/src/stats.rs: the counters of the proxy.
pub mod Counted
use thisconnect.Prelude.{
  ℕ, ◌+◌, ◌-◌, ◌%◌, ◌^◌, Bool, true, false, List, [], ◌∷◌, leb, if◌then◌else◌, length, any,
}
use thisconnect.Prelude.Split.{u32_max}
use thisconnect.Net.{IpAddr}
use thisconnect.Proxy.Cidr.{is_loopback}
use thisconnect.Proxy.Socks5.Limiter.{same_ip}

abbrev pub max_tracked_peers : ℕ
max_tracked_peers = 4096

-- The atomic counters are words of 64 bits; the set of peers is a list without repetition.
pub record Stats : Type 0 where
  pub active_sessions : ℕ
  pub total_sessions : ℕ
  pub bytes_to_tunnel : ℕ
  pub bytes_from_tunnel : ℕ
  pub tunnel_dns_lookups : ℕ
  pub local_dns_lookups : ℕ
  pub auth_failures : ℕ
  pub distinct_remote_peers : ℕ
  pub tunnel_has_v6 : Bool
  pub peers : List IpAddr

unfoldable pub new : Bool → Stats
new has_v6 = record {
  active_sessions = 0;
  total_sessions = 0;
  bytes_to_tunnel = 0;
  bytes_from_tunnel = 0;
  tunnel_dns_lookups = 0;
  local_dns_lookups = 0;
  auth_failures = 0;
  distinct_remote_peers = 0;
  tunnel_has_v6 = has_v6;
  peers = [];
}

-- `fetch_add`, which wraps around
abbrev pub add_u64 : ℕ → ℕ → ℕ
add_u64 a b = (a + b) % 2 ^ 64

-- `fetch_sub(1)`
abbrev pub sub_one_u64 : ℕ → ℕ
sub_one_u64 a = (a + (2 ^ 64 - 1)) % 2 ^ 64

unfoldable pub session_started : Stats → Stats
session_started s = record s {
  active_sessions = add_u64 s.active_sessions 1;
  total_sessions = add_u64 s.total_sessions 1;
}

-- the drop of a `SessionGuard`
unfoldable pub session_ended : Stats → Stats
session_ended s = record s { active_sessions = sub_one_u64 s.active_sessions }

unfoldable pub record_bytes : ℕ → ℕ → Stats → Stats
record_bytes up down s = record s {
  bytes_to_tunnel = add_u64 s.bytes_to_tunnel up;
  bytes_from_tunnel = add_u64 s.bytes_from_tunnel down;
}

unfoldable pub record_tunnel_dns_lookup : Stats → Stats
record_tunnel_dns_lookup s = record s { tunnel_dns_lookups = add_u64 s.tunnel_dns_lookups 1 }

unfoldable pub record_local_dns_lookup : Stats → Stats
record_local_dns_lookup s = record s { local_dns_lookups = add_u64 s.local_dns_lookups 1 }

unfoldable pub record_auth_failure : Stats → Stats
record_auth_failure s = record s { auth_failures = add_u64 s.auth_failures 1 }

unfoldable pub record_remote_peer : IpAddr → Stats → Bool × Stats
unfolding is_loopback same_ip
record_remote_peer peer s =
    if is_loopback peer
    then (false, s)
    else if any (same_ip peer) s.peers
    then (false, s)
    else if leb max_tracked_peers (length s.peers)
    then (false, s)
    else (
      true,
      record s {
        peers = peer ∷ s.peers;
        distinct_remote_peers = add_u64 s.distinct_remote_peers 1;
      },
    )

unfoldable pub saturating_u32 : ℕ → ℕ
saturating_u32 value = if leb value u32_max then value else u32_max

unfoldable pub set_tunnel_has_v6 : Bool → Stats → Stats
set_tunnel_has_v6 has_v6 s = record s { tunnel_has_v6 = has_v6 }

-- `snapshot`, of which `ProxySessionStats` is the record
pub record Snapshot : Type 0 where
  pub active_sessions : ℕ
  pub total_sessions : ℕ
  pub bytes_to_tunnel : ℕ
  pub bytes_from_tunnel : ℕ
  pub tunnel_dns_lookups : ℕ
  pub local_dns_lookups : ℕ
  pub auth_failures : ℕ
  pub distinct_remote_peers : ℕ
  pub tunnel_has_v6 : Bool

unfoldable pub snapshot : Stats → Snapshot
unfolding saturating_u32
snapshot s = record {
  active_sessions = saturating_u32 s.active_sessions;
  total_sessions = s.total_sessions;
  bytes_to_tunnel = s.bytes_to_tunnel;
  bytes_from_tunnel = s.bytes_from_tunnel;
  tunnel_dns_lookups = s.tunnel_dns_lookups;
  local_dns_lookups = s.local_dns_lookups;
  auth_failures = s.auth_failures;
  distinct_remote_peers = saturating_u32 s.distinct_remote_peers;
  tunnel_has_v6 = s.tunnel_has_v6;
}

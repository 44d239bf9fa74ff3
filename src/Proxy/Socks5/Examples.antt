-- ===== src/Proxy/Socks5/Examples.antt =====
-- A client that logs in and connects to a host by name, and failures in the throttle.
use thisconnect.Prelude.{
  inl, ◌+◌, ℕ, ◌*◌, ◌≤◌, ◌≡◌, refl, true, false, [], ◌∷◌, arith, Result, ok, length,
}
use thisconnect.Prelude.Text.{codes}
use thisconnect.Net.{IpAddr, v4}
use thisconnect.Proxy.Socks5.{Target, domain, DialError, Credentials, required, Socks5Config}
use thisconnect.Proxy.Socks5.Limiter.{
  same_ip, token, has_capacity_at, record_failure_at, max_tracked_peers,
}
use thisconnect.Proxy.Socks5.Limiter.Bounded.{record_failure_at-bounded}
use thisconnect.Proxy.Socks5.Limiter.Throttles.{
  Failures, count_of, StaysSafe, record_failures, record_failures-throttle,
  has_capacity_at-record_failure_at,
}
use thisconnect.Proxy.Socks5.Client.{Client, closed}
use thisconnect.Proxy.Socks5.Handshake.{Peer, handshake, domain_target, has_capacity}
use thisconnect.Proxy.Socks5.Handshake.Connected.{named, asked_target, handshake-served}
use thisconnect.Proxy.Socks5.Handshake.Destination.{IsAdmissible}
use thisconnect.Proxy.Socks5.Handshake.Authenticated.{IsAuthenticated, handshake-IsAuthenticated}

abbrev lan_peer : IpAddr
lan_peer = v4 (192 ∷ 168 ∷ 1 ∷ 9 ∷ [])

abbrev visitor : Peer
visitor = record { address = lan_peer; asked_at = 5; told_at = 6 }

abbrev secret : Credentials
secret = record { username = codes "u"; password = codes "pw" }

abbrev guarded_proxy : Socks5Config
guarded_proxy = record { auth = required secret; tunnel_has_v6 = false }

abbrev before : Client
before = record {
  input =
      5 ∷ 2 ∷ 0 ∷ 2 ∷ 1 ∷ 1 ∷ b'u' ∷ 2 ∷ b'p' ∷ b'w' ∷ 5 ∷ 1 ∷ 0 ∷ 3 ∷ 3 ∷ b'a' ∷ b'.' ∷ b'b' ∷ 0
      ∷ 80 ∷ 7 ∷ [];
  at_end = closed;
  writes_left = 9;
  output = [];
  buckets = [];
}

abbrev after : Client
after = record before {
  input = 7 ∷ [];
  writes_left = 6;
  output = 5 ∷ 2 ∷ 1 ∷ 0 ∷ 5 ∷ 0 ∷ 0 ∷ 1 ∷ 0 ∷ 0 ∷ 0 ∷ 0 ∷ 0 ∷ 0 ∷ [];
}

abbrev dialer : Target → Result DialError ℕ
dialer t = ok 3

connects : handshake visitor guarded_proxy dialer before ≡ (ok (domain (codes "a.b") 80, 3), after)
unfolding handshake
connects = refl

handshake-IsAuthenticated_example :
    IsAuthenticated visitor guarded_proxy secret before
    × IsAdmissible guarded_proxy (domain (codes "a.b") 80)
    × (dialer (domain (codes "a.b") 80) ≡ ok 3)
handshake-IsAuthenticated_example =
    handshake-IsAuthenticated visitor guarded_proxy secret dialer before after
      (domain (codes "a.b") 80) 3 refl connects

record_failure_at-bounded_example : length (record_failure_at lan_peer 5 []) ≤ max_tracked_peers
record_failure_at-bounded_example = record_failure_at-bounded lan_peer 5 [] (omega arith)

abbrev other_peer : IpAddr
other_peer = v4 (10 ∷ 0 ∷ 0 ∷ 7 ∷ [])

-- Five failures of one peer, and one of another between them.
abbrev failures : Failures
failures = (lan_peer, 2) ∷ (other_peer, 2) ∷ (lan_peer, 2) ∷ (lan_peer, 3) ∷ (lan_peer, 8) ∷ []

four_more : 4 ≤ count_of lan_peer failures
unfolding same_ip
four_more = omega arith

there_is_room : StaysSafe lan_peer failures (record_failure_at lan_peer 1 [])
unfolding record_failure_at same_ip
there_is_room = (
  inl (omega arith),
  (inl (omega arith), (inl (omega arith), (inl (omega arith), (inl (omega arith), tt)))),
)

record_failures-throttle_example :
    has_capacity_at lan_peer 9 (record_failures failures (record_failure_at lan_peer 1 [])) ≡ false
record_failures-throttle_example =
    record_failures-throttle lan_peer 1 9 failures [] (omega arith) four_more
      (omega arith, (omega arith, (omega arith, (omega arith, (omega arith, omega arith)))))
      (omega arith) there_is_room

has_capacity_at-record_failure_at_example :
    has_capacity_at lan_peer (2 * token) (record_failure_at lan_peer 1 []) ≡ true
has_capacity_at-record_failure_at_example =
    has_capacity_at-record_failure_at lan_peer 1 (2 * token) [] (omega arith)

asks_for_a_name :
    asked_target (named (codes "a.b")) (0 * 256 + 80) guarded_proxy ≡ ok (domain (codes "a.b") 80)
unfolding domain_target
asks_for_a_name = refl

visitor_capable : has_capacity visitor before ≡ true
unfolding has_capacity
visitor_capable = refl

handshake-served_example :
    handshake visitor guarded_proxy dialer before ≡ (ok (domain (codes "a.b") 80, 3), after)
handshake-served_example =
    handshake-served visitor guarded_proxy secret dialer (0 ∷ 2 ∷ []) (named (codes "a.b")) 0 80
      (7 ∷ []) before (domain (codes "a.b") 80) 3 refl refl tt asks_for_a_name refl visitor_capable
      (omega arith)

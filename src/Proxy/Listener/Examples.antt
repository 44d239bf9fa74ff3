-- ===== src/Proxy/Listener/Examples.antt =====
-- A listener without a password on the loopback pair, a block of addresses, and two sessions.
use thisconnect.Prelude.{
  some-injective, ◌≡◌, refl, subst, ◌↔◌, ◌⊎◌, true, false, Option, none, some, [], ◌∷◌, arith, ok,
  err,
}
use thisconnect.Prelude.Text.{codes}
use thisconnect.Net.{IpAddr, v4, v6}
use thisconnect.Proxy.Socks5.{disabled}
use thisconnect.Proxy.Cidr.{
  Cidr, is_loopback, is_peer_allowed, canonical, from_str, show_cidr, max_prefix,
}
use thisconnect.Proxy.Cidr.Covers.{IsIp, IsCidr, SomeCovers, is_peer_allowed_iff}
use thisconnect.Proxy.Stats.{new, session_started, record_remote_peer}
use thisconnect.Proxy.Stats.Counted.{fresh, started, peer, IsCounted, Reached-IsCounted}
use thisconnect.Proxy.Http.{HttpError}
use thisconnect.Proxy.Listener.{
  SocketAddr, ListenerConfig, Handle, start, Runtime, FrontEnds, byte, admit,
}
use thisconnect.Proxy.Listener.Binding.{KeepsLoopback}
use thisconnect.Proxy.Listener.Bound.{IsStarted, start-IsStarted}
use thisconnect.Proxy.Listener.Admitted.{IsAccounted, admit-IsAccounted}

abbrev local_v4 : SocketAddr
local_v4 = record { ip = v4 (127 ∷ 0 ∷ 0 ∷ 1 ∷ []); port = 1080 }

abbrev local_v6 : SocketAddr
local_v6 = record {
  ip = v6 (0 ∷ 0 ∷ 0 ∷ 0 ∷ 0 ∷ 0 ∷ 0 ∷ 0 ∷ 0 ∷ 0 ∷ 0 ∷ 0 ∷ 0 ∷ 0 ∷ 0 ∷ 1 ∷ []);
  port = 1080;
}

-- A host without IPv6.
abbrev bind_v4 : SocketAddr → Option SocketAddr
bind_v4 a = elim a.ip [ v4 o ↦ some a | v6 o ↦ none ]

bind_v4_at :
    (i : IpAddr) (a b : SocketAddr)
    → a.ip ≡ i
    → (elim i [ v4 o ↦ some a | v6 o ↦ none ]) ≡ some b
    → a ≡ b
bind_v4_at (v4 o) a b e h = some-injective h
bind_v4_at (v6 o) a b e h = cc

bind_v4-KeepsLoopback : KeepsLoopback bind_v4
bind_v4-KeepsLoopback a b h local =
    subst (λ x. is_loopback x.ip ≡ true) (bind_v4_at a.ip a b refl h) local

abbrev open_config : ListenerConfig
open_config = record {
  bind_addrs = local_v4 ∷ local_v6 ∷ [];
  auth = disabled;
  allowed_cidrs = [];
  tunnel_has_v6 = false;
}

abbrev open_handle : Handle
open_handle = record {
  listen_addrs = local_v4 ∷ [];
  skipped_addrs = local_v6 ∷ [];
  runtime = record {
    socks5 = record { auth = disabled; tunnel_has_v6 = false };
    http = record { auth = disabled; tunnel_has_v6 = false };
    allowed_cidrs = [];
  };
}

starts : start bind_v4 open_config ≡ ok open_handle
unfolding start
starts = refl

start-IsStarted_example : IsStarted bind_v4 open_config open_handle
start-IsStarted_example =
    start-IsStarted bind_v4 open_config open_handle bind_v4-KeepsLoopback starts

abbrev lan : Cidr
lan = record { network = v4 (192 ∷ 168 ∷ 0 ∷ 0 ∷ []); prefix_len = 18 }

reads_lan : (from_str (codes "192.168.0.0/18") ≡ ok lan) × (show_cidr lan ≡ codes "192.168.0.0/18")
unfolding from_str show_cidr
reads_lan = (refl, refl)

abbrev mapped_peer : IpAddr
mapped_peer = v6 (0 ∷ 0 ∷ 0 ∷ 0 ∷ 0 ∷ 0 ∷ 0 ∷ 0 ∷ 0 ∷ 0 ∷ 255 ∷ 255 ∷ 192 ∷ 168 ∷ 63 ∷ 9 ∷ [])

lan-IsCidr : IsCidr lan
unfolding max_prefix
lan-IsCidr = (((omega arith, (omega arith, (omega arith, (omega arith, tt)))), refl), omega arith)

mapped_peer-IsIp : IsIp mapped_peer
mapped_peer-IsIp = (
  (
    omega arith,
    (
      omega arith,
      (
        omega arith,
        (
          omega arith,
          (
            omega arith,
            (
              omega arith,
              (
                omega arith,
                (
                  omega arith,
                  (
                    omega arith,
                    (
                      omega arith,
                      (
                        omega arith,
                        (
                          omega arith,
                          (omega arith, (omega arith, (omega arith, (omega arith, tt)))),
                        ),
                      ),
                    ),
                  ),
                ),
              ),
            ),
          ),
        ),
      ),
    ),
  ),
  refl,
)

is_peer_allowed_iff_example :
    (is_peer_allowed mapped_peer (lan ∷ []) ≡ true)
    ↔ ((is_loopback (canonical mapped_peer) ≡ true) ⊎ SomeCovers (lan ∷ []) (canonical mapped_peer))
is_peer_allowed_iff_example =
    is_peer_allowed_iff mapped_peer (lan ∷ []) (lan-IsCidr, tt) mapped_peer-IsIp

lets_in : is_peer_allowed mapped_peer (lan ∷ []) ≡ true
unfolding is_peer_allowed
lets_in = refl

abbrev lan_runtime : Runtime
lan_runtime = record open_handle.runtime { allowed_cidrs = lan ∷ [] }

abbrev relays : FrontEnds
relays = record { serve_socks5 = ok (10, 20); serve_http = err HttpError.auth_failed }

admit-IsAccounted_example :
    IsAccounted lan_runtime mapped_peer
      (new true)
      (admit lan_runtime mapped_peer relays (byte 67) (new true))
unfolding new
admit-IsAccounted_example =
    admit-IsAccounted lan_runtime mapped_peer relays (byte 67) (new true) (lan-IsCidr, tt)
      mapped_peer-IsIp (omega arith)

Reached-IsCounted_example :
    IsCounted 1 (mapped_peer ∷ []) (session_started ((record_remote_peer mapped_peer (new true)).1))
Reached-IsCounted_example =
    Reached-IsCounted 1 (mapped_peer ∷ [])
      (session_started ((record_remote_peer mapped_peer (new true)).1))
      (started 0 _ _ (peer 0 mapped_peer _ _ (fresh true)))

-- ===== src/Proxy/Stats/Counted.antt =====
-- What the counters of proxy/src/stats.rs hold after any calls, in any order.
use thisconnect.Prelude.{
  ◌⊎◌, inl, inr, All, ℕ, suc, ◌%◌, ◌^◌, ◌≤◌, ◌<◌, ◌≡◌, refl, sym, ap, subst, ◌∙◌, Bool, true, false,
  List, [], ◌∷◌, arith, leb, length, any,
}
use thisconnect.Net.{IpAddr}
use thisconnect.Proxy.Cidr.{is_loopback}
use thisconnect.Proxy.Socks5.Limiter.{same_ip}
use thisconnect.Proxy.Socks5.Limiter.Bounded.{same_ip_refl}
use thisconnect.Proxy.Stats.{
  Stats, new, max_tracked_peers, session_started, session_ended, record_bytes,
  record_tunnel_dns_lookup, record_local_dns_lookup, record_auth_failure, record_remote_peer,
  set_tunnel_has_v6,
}

-- The calls that have been made, with the number of sessions that are open and the addresses that
-- `record_remote_peer` was called with. A session ends once for each time that one has started,
-- since its guard is dropped once.
pub data Reached : ℕ → List IpAddr → Stats → Type 0 where
  fresh : (has_v6 : Bool) → Reached 0 [] (new has_v6)
  started :
      (n : ℕ) (calls : List IpAddr) (s : Stats)
      → Reached n calls s
      → Reached (suc n) calls (session_started s)
  ended :
      (n : ℕ) (calls : List IpAddr) (s : Stats)
      → Reached (suc n) calls s
      → Reached n calls (session_ended s)
  bytes :
      (n up down : ℕ) (calls : List IpAddr) (s : Stats)
      → Reached n calls s
      → Reached n calls (record_bytes up down s)
  tunnel_lookup :
      (n : ℕ) (calls : List IpAddr) (s : Stats)
      → Reached n calls s
      → Reached n calls (record_tunnel_dns_lookup s)
  local_lookup :
      (n : ℕ) (calls : List IpAddr) (s : Stats)
      → Reached n calls s
      → Reached n calls (record_local_dns_lookup s)
  failure :
      (n : ℕ) (calls : List IpAddr) (s : Stats)
      → Reached n calls s
      → Reached n calls (record_auth_failure s)
  peer :
      (n : ℕ) (a : IpAddr) (calls : List IpAddr) (s : Stats)
      → Reached n calls s
      → Reached n (a ∷ calls) ((record_remote_peer a s).1)
  has_v6 :
      (n : ℕ) (b : Bool) (calls : List IpAddr) (s : Stats)
      → Reached n calls s
      → Reached n calls (set_tunnel_has_v6 b s)

-- No peer is listed twice, and none comes from loopback.
abbrev pub IsDistinct : List IpAddr → Type 0
IsDistinct [] = Unit
IsDistinct (a ∷ others) =
    (is_loopback a ≡ false) × (any (same_ip a) others ≡ false) × IsDistinct others

-- An address is listed, or was not to be: it is of loopback, or the list is full.
abbrev pub IsListed : List IpAddr → IpAddr → Type 0
IsListed peers a =
    (is_loopback a ≡ true) ⊎ (any (same_ip a) peers ≡ true) ⊎ (length peers ≡ max_tracked_peers)

pub record IsCounted (n : ℕ) (calls : List IpAddr) (s : Stats) : Type 0 where
  pub active : s.active_sessions ≡ n % 2 ^ 64
  pub peers_counted : s.distinct_remote_peers ≡ length s.peers
  pub peers_few : length s.peers ≤ max_tracked_peers
  pub distinct : IsDistinct s.peers
  pub listed : All (IsListed s.peers) calls
  pub called : All (λ p. any (same_ip p) calls ≡ true) s.peers

IsListed-cons :
    (p a : IpAddr) (peers : List IpAddr)
    → length peers < max_tracked_peers
    → IsListed peers a
    → IsListed (p ∷ peers) a
IsListed-cons p a peers h (inl local) = inl local
IsListed-cons p a peers h (inr (inl known)) = inr (inl (ground (arith, known)))
IsListed-cons p a peers h (inr (inr full)) = let k : ⊥ = omega (arith, h, full) in elim k [ ]

all-IsListed-cons :
    (p : IpAddr) (peers calls : List IpAddr)
    → length peers < max_tracked_peers
    → All (IsListed peers) calls
    → All (IsListed (p ∷ peers)) calls
all-IsListed-cons p peers [] h k = tt
all-IsListed-cons p peers (a ∷ calls) h k =
    (IsListed-cons p a peers h k.0, all-IsListed-cons p peers calls h k.1)

called_before :
    (a : IpAddr) (calls peers : List IpAddr)
    → All (λ p. any (same_ip p) calls ≡ true) peers
    → All (λ p. any (same_ip p) (a ∷ calls) ≡ true) peers
called_before a calls [] h = tt
called_before a calls (p ∷ peers) (h, hs) = (ground (arith, h), called_before a calls peers hs)

-- a call that leaves the counters as they are
unrecorded :
    (n : ℕ) (a : IpAddr) (calls : List IpAddr) (s : Stats)
    → IsListed s.peers a
    → IsCounted n calls s
    → IsCounted n (a ∷ calls) s
unrecorded n a calls s l h = record {
  active = h.active;
  peers_counted = h.peers_counted;
  peers_few = h.peers_few;
  distinct = h.distinct;
  listed = (l, h.listed);
  called = called_before a calls s.peers h.called;
}

record_remote_peer-IsCounted :
    (b c d : Bool) (n : ℕ) (a : IpAddr) (calls : List IpAddr) (s : Stats)
    → is_loopback a ≡ b
    → any (same_ip a) s.peers ≡ c
    → leb max_tracked_peers (length s.peers) ≡ d
    → IsCounted n calls s
    → IsCounted n (a ∷ calls) ((record_remote_peer a s).1)
unfolding record_remote_peer
record_remote_peer-IsCounted true c d n a calls s e f g h = rw e (unrecorded n a calls s (inl e) h)
record_remote_peer-IsCounted false true d n a calls s e f g h =
    rw (e, f) (unrecorded n a calls s (inr (inl f)) h)
record_remote_peer-IsCounted false false true n a calls s e f g h =
    let few = h.peers_few in
    rw (e, f, g) (unrecorded n a calls s (inr (inr (ground (arith, g, few)))) h)
record_remote_peer-IsCounted false false false n a calls s e f g h =
    let few : length s.peers < max_tracked_peers = ground (arith, g) in
    rw (e, f, g)
      (record {
        active = h.active;
        peers_counted = omega (arith, h.peers_counted, few);
        peers_few = omega (arith, few);
        distinct = (e, f, h.distinct);
        listed =
            (inr (inl (rw (same_ip_refl a) refl)), all-IsListed-cons a s.peers calls few h.listed);
        called = (rw (same_ip_refl a) refl, called_before a calls s.peers h.called);
      })

same_counts :
    (n : ℕ) (calls : List IpAddr) (s t : Stats)
    → t.active_sessions ≡ s.active_sessions
    → t.distinct_remote_peers ≡ s.distinct_remote_peers
    → t.peers ≡ s.peers
    → IsCounted n calls s
    → IsCounted n calls t
same_counts n calls s t e f g h = record {
  active = e ∙ h.active;
  peers_counted = f ∙ (h.peers_counted ∙ ap length (sym g));
  peers_few = subst (λ l. length l ≤ max_tracked_peers) (sym g) h.peers_few;
  distinct = subst IsDistinct (sym g) h.distinct;
  listed = subst (λ l. All (IsListed l) calls) (sym g) h.listed;
  called = subst (All (λ p. any (same_ip p) calls ≡ true)) (sym g) h.called;
}

-- Whatever is called, in whatever order, the gauge of active sessions is the number of open
-- sessions (as a word of 64 bits). The number of remote peers is the number of the addresses that
-- are listed, each of which was recorded by a call, is not itself a loopback address, and is listed
-- once; every recorded address that is not of loopback is among them, unless there are 4096
-- already, of which there are never more.
pub Reached-IsCounted :
    (n : ℕ) (calls : List IpAddr) (s : Stats) → Reached n calls s → IsCounted n calls s
unfolding new session_started session_ended record_bytes record_tunnel_dns_lookup
    record_local_dns_lookup record_auth_failure set_tunnel_has_v6
Reached-IsCounted n cs s (fresh b) = record {
  active = refl;
  peers_counted = refl;
  peers_few = omega arith;
  distinct = tt;
  listed = tt;
  called = tt;
}
Reached-IsCounted n cs s (started m ds t r) =
    let h = Reached-IsCounted m ds t r in
    record {
      active = omega (arith, h.active);
      peers_counted = h.peers_counted;
      peers_few = h.peers_few;
      distinct = h.distinct;
      listed = h.listed;
      called = h.called;
    }
Reached-IsCounted n cs s (ended m ds t r) =
    let h = Reached-IsCounted (suc m) ds t r in
    record {
      active = omega (arith, h.active);
      peers_counted = h.peers_counted;
      peers_few = h.peers_few;
      distinct = h.distinct;
      listed = h.listed;
      called = h.called;
    }
Reached-IsCounted n cs s (bytes m up down ds t r) =
    same_counts m ds t _ refl refl refl (Reached-IsCounted m ds t r)
Reached-IsCounted n cs s (tunnel_lookup m ds t r) =
    same_counts m ds t _ refl refl refl (Reached-IsCounted m ds t r)
Reached-IsCounted n cs s (local_lookup m ds t r) =
    same_counts m ds t _ refl refl refl (Reached-IsCounted m ds t r)
Reached-IsCounted n cs s (failure m ds t r) =
    same_counts m ds t _ refl refl refl (Reached-IsCounted m ds t r)
Reached-IsCounted n cs s (has_v6 m b ds t r) =
    same_counts m ds t _ refl refl refl (Reached-IsCounted m ds t r)
Reached-IsCounted n cs s (peer m a ds t r) =
    record_remote_peer-IsCounted _ _ _ m a ds t refl refl refl (Reached-IsCounted m ds t r)

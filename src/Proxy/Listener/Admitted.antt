-- ===== src/Proxy/Listener/Admitted.antt =====
-- Whom the listener of proxy/src/listener/session.rs serves, and what it counts of it.
use thisconnect.Prelude.{
  ℕ, ◌^◌, ◌<◌, ◌≡◌, refl, ◌↔◌, ◌⊎◌, Bool, true, false, not, arith, leb, if◌then◌else◌, Result, ok,
  err, length, any, All,
}
use thisconnect.Net.{IpAddr}
use thisconnect.Proxy.Cidr.{is_loopback, is_peer_allowed, canonical}
use thisconnect.Proxy.Cidr.Covers.{IsIp, IsCidr, SomeCovers, is_peer_allowed_iff}
use thisconnect.Proxy.Stats.{
  Stats, record_remote_peer, record_bytes, record_auth_failure, session_started, session_ended,
  max_tracked_peers,
}
use thisconnect.Proxy.Socks5.Limiter.{same_ip}
use thisconnect.Proxy.Listener.{
  Runtime, FrontEnds, Peeked, SessionError, is_auth_failure, count_outcome, serve, serve_first,
  peek_first_byte, classify, dispatch, admit,
}

failure_active : (s : Stats) → (record_auth_failure s).active_sessions ≡ s.active_sessions
unfolding record_auth_failure
failure_active s = refl

count_outcome-active :
    (r : Result SessionError (ℕ × ℕ)) (s : Stats)
    → (count_outcome r s).active_sessions ≡ s.active_sessions
unfolding count_outcome record_bytes record_auth_failure
count_outcome-active (ok (up, down)) s = refl
count_outcome-active (err e) s = if_active (is_auth_failure e)
  where
    if_active :
        (b : Bool) → (if b then record_auth_failure s else s).active_sessions ≡ s.active_sessions
    if_active true = failure_active s
    if_active false = refl

serve_first-active :
    (fronts : FrontEnds) (r : Result SessionError ℕ) (s : Stats)
    → (serve_first fronts r s).active_sessions ≡ s.active_sessions
unfolding serve_first
serve_first-active fronts (ok first) s = count_outcome-active (dispatch fronts (classify first)) s
serve_first-active fronts (err e) s = refl

serve-active :
    (fronts : FrontEnds) (peeked : Peeked) (s : Stats)
    → (serve fronts peeked s).active_sessions ≡ s.active_sessions
unfolding serve
serve-active fronts peeked s = serve_first-active fronts (peek_first_byte peeked) s

peer_active :
    (b c d : Bool) (a : IpAddr) (s : Stats)
    → is_loopback a ≡ b
    → any (same_ip a) s.peers ≡ c
    → leb max_tracked_peers (length s.peers) ≡ d
    → ((record_remote_peer a s).1).active_sessions ≡ s.active_sessions
unfolding record_remote_peer
peer_active true c d a s e f g = rw e refl
peer_active false true d a s e f g = rw (e, f) refl
peer_active false false true a s e f g = rw (e, f, g) refl
peer_active false false false a s e f g = rw (e, f, g) refl

-- What a connection of a peer leaves behind.
pub record IsAccounted (runtime : Runtime) (peer : IpAddr) (s : Stats) (after : Bool × Stats)
    : Type 0 where
  pub admitted :
      (after.0 ≡ true)
      ↔ ((is_loopback (canonical peer) ≡ true) ⊎ SomeCovers runtime.allowed_cidrs (canonical peer))
  pub unseen : after.0 ≡ false → after.1 ≡ s
  pub gauge : after.1.active_sessions ≡ s.active_sessions

gauge_kept :
    (peer : IpAddr) (fronts : FrontEnds) (peeked : Peeked) (s : Stats)
    → s.active_sessions < 2 ^ 64
    → (session_ended
        (serve fronts peeked (session_started ((record_remote_peer peer s).1)))).active_sessions
      ≡ s.active_sessions
unfolding session_ended session_started
gauge_kept peer fronts peeked s h =
    let kept = serve-active fronts peeked (session_started ((record_remote_peer peer s).1)) in
    let seen = peer_active _ _ _ peer s refl refl refl in omega (arith, h, kept, seen)

accounted :
    (b : Bool) (runtime : Runtime) (peer : IpAddr) (s t : Stats)
    → (b ≡ true)
      ↔ ((is_loopback (canonical peer) ≡ true) ⊎ SomeCovers runtime.allowed_cidrs (canonical peer))
    → t.active_sessions ≡ s.active_sessions
    → IsAccounted runtime peer s (if not b then (false, s) else (true, t))
accounted true runtime peer s t h k = record { admitted = h; unseen = λ e. cc; gauge = k }
accounted false runtime peer s t h k = record { admitted = h; unseen = λ _. refl; gauge = refl }

-- A connection is served exactly where its peer comes from loopback or from a listed block; one
-- that is refused leaves no trace in the counters. Whatever becomes of a session, the gauge of
-- active sessions is afterwards what it was before.
pub admit-IsAccounted :
    (runtime : Runtime) (peer : IpAddr) (fronts : FrontEnds) (peeked : Peeked) (s : Stats)
    → All IsCidr runtime.allowed_cidrs
    → IsIp peer
    → s.active_sessions < 2 ^ 64
    → IsAccounted runtime peer s (admit runtime peer fronts peeked s)
unfolding admit
admit-IsAccounted runtime peer fronts peeked s h k l =
    accounted (is_peer_allowed peer runtime.allowed_cidrs) runtime peer s _
      (is_peer_allowed_iff peer runtime.allowed_cidrs h k) (gauge_kept peer fronts peeked s l)

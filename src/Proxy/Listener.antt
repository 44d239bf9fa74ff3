-- ===== src/Proxy/Listener.antt =====
-- The listener of the proxy, proxy/src/listener.rs and proxy/src/listener/session.rs: which
-- addresses are bound, which peers are admitted, and which front end a connection is handed to.
mod Binding
pub mod Bound
pub mod Admitted
mod Examples
use thisconnect.Prelude.{
  ◌>>=◌, ◌>>◌, ℕ, ◌+◌, Bool, true, false, not, Option, none, some, List, [], ◌∷◌, ◌++◌, ◌==◌,
  if◌then◌else◌, Result, ok, err, is_empty, all,
}
use thisconnect.Prelude.Text.{within}
use thisconnect.Net.{IpAddr}
use thisconnect.Proxy.Cidr.{Cidr, is_loopback, is_peer_allowed}
use thisconnect.Proxy.Socks5.{AuthPolicy, required, disabled, Socks5Config, Socks5Error}
use thisconnect.Proxy.Http.{HttpConfig, HttpError}
use thisconnect.Proxy.Stats.{
  Stats, record_remote_peer, record_bytes, record_auth_failure, session_started, session_ended,
}

-- `SocketAddr`
pub record SocketAddr : Type 0 where
  pub ip : IpAddr
  pub port : ℕ

-- `ListenerConfig`, with the credentials of `AuthSetting` as the front ends take them.
pub record ListenerConfig : Type 0 where
  pub bind_addrs : List SocketAddr
  pub auth : AuthPolicy
  pub allowed_cidrs : List Cidr
  pub tunnel_has_v6 : Bool

-- `Bind` without its cause.
pub data ListenerError : Type 0 where
  non_loopback_without_auth : SocketAddr → ListenerError
  no_bind_address : ListenerError
  bind : SocketAddr → ListenerError

abbrev pub is_required : AuthPolicy → Bool
is_required (required c) = true
is_required disabled = false

abbrev pub is_local : SocketAddr → Bool
is_local addr = is_loopback addr.ip

-- `bind_addrs.iter().find(|addr| !addr.ip().is_loopback())`
unfoldable pub find_routable : List SocketAddr → Option SocketAddr
unfolding is_loopback
find_routable [] = none
find_routable (a ∷ rest) = if is_loopback a.ip then find_routable rest else some a

unfoldable pub refuse_open : Option SocketAddr → Result ListenerError Unit
refuse_open none = ok tt
refuse_open (some addr) = err (non_loopback_without_auth addr)

unfoldable pub validate : ListenerConfig → Result ListenerError Unit
unfolding find_routable refuse_open
validate config =
    if is_empty config.bind_addrs
    then err no_bind_address
    else if is_required config.auth
    then ok tt
    else refuse_open (find_routable config.bind_addrs)

pub record BindOutcome : Type 0 where
  pub bound : List SocketAddr
  pub skipped : List SocketAddr

abbrev pub or_first : Option ListenerError → ListenerError → Option ListenerError
or_first none e = some e
or_first (some f) e = some f

abbrev pub outcome_of : Option ListenerError → BindOutcome → Result ListenerError BindOutcome
outcome_of none o = ok o
outcome_of (some failure) o = if is_empty o.bound then err failure else ok o

-- The loop of `bind_all`, with what was bound and skipped before. `try_bind` is the address that
-- a bind comes to be on, or none where the bind or the reading of its address fails.
unfoldable pub bind_rest :
    (SocketAddr → Option SocketAddr)
    → BindOutcome
    → Option ListenerError
    → List SocketAddr
    → Result ListenerError BindOutcome
unfolding is_loopback
bind_rest try_bind o first [] = outcome_of first o
bind_rest try_bind o first (a ∷ rest) = elim (try_bind a) [
  | some addr ↦ bind_rest try_bind (record o { bound = o.bound ++ (addr ∷ []) }) first rest
  | none ↦
      if is_loopback a.ip
      then bind_rest try_bind (record o { skipped = o.skipped ++ (a ∷ []) })
          (or_first first (bind a)) rest
      else err (bind a)
]

unfoldable pub bind_all :
    (SocketAddr → Option SocketAddr) → List SocketAddr → Result ListenerError BindOutcome
unfolding bind_rest
bind_all try_bind addrs = bind_rest try_bind (record { bound = []; skipped = [] }) none addrs

-- `session::Runtime`: what every session is served with.
pub record Runtime : Type 0 where
  pub socks5 : Socks5Config
  pub http : HttpConfig
  pub allowed_cidrs : List Cidr

-- `Handle`, with the runtime that it hands to its acceptors.
pub record Handle : Type 0 where
  pub listen_addrs : List SocketAddr
  pub skipped_addrs : List SocketAddr
  pub runtime : Runtime

unfoldable pub start :
    (SocketAddr → Option SocketAddr) → ListenerConfig → Result ListenerError Handle
unfolding validate bind_all
start try_bind config = do
  validate config
  o ← bind_all try_bind config.bind_addrs
  ok (record {
    listen_addrs = o.bound;
    skipped_addrs = o.skipped;
    runtime = record {
      socks5 = record { auth = config.auth; tunnel_has_v6 = config.tunnel_has_v6 };
      http = record { auth = config.auth; tunnel_has_v6 = config.tunnel_has_v6 };
      allowed_cidrs = config.allowed_cidrs;
    };
  })

-- `Handle::is_loopback_only`
unfoldable pub is_loopback_only : Handle → Bool
unfolding is_loopback
is_loopback_only h = all is_local h.listen_addrs

pub data Protocol : Type 0 where
  socks5 http socks4 : Protocol
  unsupported : ℕ → Protocol

unfoldable pub classify : ℕ → Protocol
classify first =
    if first == 0x05
    then socks5
    else if first == 0x04
    then socks4
    else if within b'A' b'Z' first
    then http
    else unsupported first

-- `SessionError`, where an `io::Error` is a failed peek.
pub data SessionError : Type 0 where
  peek empty dispatch_timeout refused_socks4 : SessionError
  refused : ℕ → SessionError
  from_socks5 : Socks5Error → SessionError
  from_http : HttpError → SessionError

unfoldable pub is_auth_failure : SessionError → Bool
is_auth_failure (from_socks5 Socks5Error.auth_failed) = true
is_auth_failure (from_socks5 Socks5Error.auth_rate_limited) = true
is_auth_failure (from_http HttpError.auth_failed) = true
is_auth_failure (from_http HttpError.auth_rate_limited) = true
is_auth_failure _ = false

-- what a peek at the first byte comes to
pub data Peeked : Type 0 where
  byte : ℕ → Peeked
  nothing failure timeout : Peeked

unfoldable pub peek_first_byte : Peeked → Result SessionError ℕ
peek_first_byte (byte b) = ok b
peek_first_byte nothing = err empty
peek_first_byte failure = err peek
peek_first_byte timeout = err dispatch_timeout

-- The two relays, each with the bytes that it carried in both directions.
pub record FrontEnds : Type 0 where
  pub serve_socks5 : Result Socks5Error (ℕ × ℕ)
  pub serve_http : Result HttpError (ℕ × ℕ)

abbrev pub map_error : {E A : Type 0} → (E → SessionError) → Result E A → Result SessionError A
map_error f (ok a) = ok a
map_error f (err e) = err (f e)

unfoldable pub dispatch : FrontEnds → Protocol → Result SessionError (ℕ × ℕ)
dispatch fronts socks5 = map_error from_socks5 fronts.serve_socks5
dispatch fronts http = map_error from_http fronts.serve_http
dispatch fronts socks4 = err refused_socks4
dispatch fronts (unsupported b) = err (refused b)

-- what `serve` counts of an outcome
unfoldable pub count_outcome : Result SessionError (ℕ × ℕ) → Stats → Stats
unfolding record_bytes record_auth_failure is_auth_failure
count_outcome (ok (up, down)) stats = record_bytes up down stats
count_outcome (err e) stats = if is_auth_failure e then record_auth_failure stats else stats

-- A byte that cannot be read ends the session before anything is counted.
unfoldable pub serve_first : FrontEnds → Result SessionError ℕ → Stats → Stats
unfolding classify dispatch count_outcome
serve_first fronts (ok first) stats = count_outcome (dispatch fronts (classify first)) stats
serve_first fronts (err e) stats = stats

unfoldable pub serve : FrontEnds → Peeked → Stats → Stats
unfolding peek_first_byte serve_first
serve fronts peeked stats = serve_first fronts (peek_first_byte peeked) stats

-- `admit`, with the session that it spawns run to its end; the flag says whether one was spawned.
unfoldable pub admit : Runtime → IpAddr → FrontEnds → Peeked → Stats → Bool × Stats
unfolding is_peer_allowed record_remote_peer session_started serve session_ended
admit runtime peer fronts peeked stats =
    if not (is_peer_allowed peer runtime.allowed_cidrs) then (false, stats) else (
      true,
      session_ended (serve fronts peeked (session_started ((record_remote_peer peer stats).1))),
    )

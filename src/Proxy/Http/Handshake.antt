-- ===== src/Proxy/Http/Handshake.antt =====
-- The handshake of proxy/src/http.rs: the request, the credentials, the destination, the dial and
-- the answers. Base64 and the dialer are parameters.
mod Login
pub mod Authenticated
pub mod Answered
pub mod Refused
use thisconnect.Prelude.{
  Bool, false, not, Option, none, some, List, [], ◌∷◌, ◌++◌, if◌then◌else◌, Result, ok, err,
}
use thisconnect.Prelude.Text.{Text, Bytes, codes, text_eq, to_ascii_lowercase, trim}
use thisconnect.Prelude.Exec.{pure, raise, ◌>>=◌, ◌>>◌}
use thisconnect.Prelude.Split.{split_once}
use thisconnect.Prelude.Utf8.{from_utf8}
use thisconnect.Net.{show}
use thisconnect.Proxy.Socks5.{
  Target, DialError, Credentials, verify, AuthPolicy, required, disabled,
}
use thisconnect.Proxy.Socks5.Limiter.{has_capacity_at, record_failure_at}
use thisconnect.Proxy.Socks5.Handshake.{Peer}
use thisconnect.Proxy.Http.{
  HttpError, malformed, auth_required, auth_failed, auth_rate_limited, handshake_timeout,
  dial_timeout, dial, HttpConfig, Status, status, st_request_timeout, challenge_line, is_auth_error,
}
use thisconnect.Proxy.Http.Client.{Stop, failed, elapsed, Talk, write}
use thisconnect.Proxy.Http.Head.{RawHead, read_head}
use thisconnect.Proxy.Http.Request.{Header, Head, is_named, is_authorization, parse_head}
use thisconnect.Proxy.Http.Authority.{target_from_authority}

-- a result that was made without the client
abbrev pub returning : {A : Type 0} → Result HttpError A → Talk A
returning (ok a) w = (ok a, w)
returning (err e) w = (err (failed e), w)

-- `headers.iter().find(..)`
unfoldable pub find_header : (Header → Bool) → List Header → Option Header
find_header p [] = none
find_header p (h ∷ hs) = if p h then some h else find_header p hs

-- the two sides of the first colon of some bytes
unfoldable pub decode_basic : (Text → Option Bytes) → Text → Option (Bytes × Bytes)
unfolding split_once text_eq to_ascii_lowercase trim
decode_basic decode value = elim (split_once b' ' value) [
  | none ↦ none
  | some (scheme, token) ↦
      if not (text_eq (to_ascii_lowercase scheme) (codes "basic"))
      then none
      else elim (decode (trim token)) [ none ↦ none | some decoded ↦ split_once b':' decoded ]
]

-- whether a header's value spells the credentials
unfoldable pub accepts : (Text → Option Bytes) → Credentials → Text → Bool
unfolding decode_basic verify
accepts decode credentials value = elim (decode_basic decode value) [
  | none ↦ false
  | some (user, pass) ↦ verify credentials user pass
]

unfoldable pub record_failure : Peer → Talk Unit
unfolding record_failure_at
record_failure peer w =
    (ok tt, record w { buckets = record_failure_at peer.address peer.told_at w.buckets })

unfoldable pub judge : (Text → Option Bytes) → Peer → Credentials → Option Header → Talk Unit
unfolding has_capacity_at accepts record_failure
judge decode peer credentials none w = (err (failed auth_required), w)
judge decode peer credentials (some header) w =
    if not (has_capacity_at peer.address peer.asked_at w.buckets)
    then (err (failed auth_rate_limited), w)
    else if accepts decode credentials header.value
    then (ok tt, w)
    else (record_failure peer >> raise (failed auth_failed)) w

unfoldable pub authorize : (Text → Option Bytes) → Head → Peer → AuthPolicy → Talk Unit
unfolding find_header is_named judge
authorize decode head peer disabled = pure tt
authorize decode head peer (required credentials) =
    judge decode peer credentials (find_header is_authorization head.headers)

pub record Negotiated : Type 0 where
  pub target : Target
  pub pending : Bytes

abbrev pub utf8_head : Option Text → Result HttpError Text
utf8_head none = err (malformed (codes "request head is not ASCII"))
utf8_head (some head) = ok head

-- what follows `parse_head`
unfoldable pub admit : (Text → Option Bytes) → Peer → HttpConfig → Bytes → Head → Talk Negotiated
unfolding authorize target_from_authority
admit decode peer config pending request = do
  authorize decode request peer config.auth
  target ← returning (target_from_authority request.target config)
  pure (record { target = target; pending = pending })

-- what follows the reading of the head
unfoldable pub judge_head : (Text → Option Bytes) → Peer → HttpConfig → RawHead → Talk Negotiated
unfolding from_utf8 parse_head admit
judge_head decode peer config raw = do
  head ← returning (utf8_head (from_utf8 raw.head))
  request ← returning (parse_head head)
  admit decode peer config raw.pending request

unfoldable pub negotiate_inner : (Text → Option Bytes) → Peer → HttpConfig → Talk Negotiated
unfolding read_head judge_head
negotiate_inner decode peer config = read_head >>= judge_head decode peer config

abbrev pub crlf : Bytes
crlf = b'\r' ∷ b'\n' ∷ []

unfoldable pub response : Status → Bool → Bytes
unfolding show
response (code, reason) challenge =
    codes "HTTP/1.1 "
    ++ show code
    ++ codes " "
    ++ reason
    ++ crlf
    ++ (if challenge then challenge_line ++ crlf else [])
    ++ codes "Content-Length: 0"
    ++ crlf
    ++ codes "Connection: close"
    ++ crlf
    ++ crlf

unfoldable pub respond : Status → Bool → Talk Unit
unfolding write response
respond st challenge = write (response st challenge)

-- an error is answered where there is a status for it
unfoldable pub answer_with : {A : Type 0} → HttpError → Bool → Option Status → Talk A
unfolding respond
answer_with e challenge none = raise (failed e)
answer_with e challenge (some st) = respond st challenge >> raise (failed e)

unfoldable pub answer_stop : {A : Type 0} → Result Stop A → Talk A
unfolding answer_with status
answer_stop (ok a) = pure a
answer_stop (err elapsed) = raise elapsed
answer_stop (err (failed e)) = answer_with e (is_auth_error e) (status e)

unfoldable pub negotiate : (Text → Option Bytes) → Peer → HttpConfig → Talk Negotiated
unfolding negotiate_inner answer_stop
negotiate decode peer config w =
    answer_stop (negotiate_inner decode peer config w).0 (negotiate_inner decode peer config w).1

-- `timeout(.., negotiate(..))` in `handshake`
unfoldable pub answer_elapsed : {A : Type 0} → Result Stop A → Talk A
unfolding respond
answer_elapsed (ok a) = pure a
answer_elapsed (err (failed e)) = raise (failed e)
answer_elapsed (err elapsed) = respond st_request_timeout false >> raise (failed handshake_timeout)

-- What a dial comes to; `none` is a dialer that has not answered when the timeout elapses.
unfoldable pub dial_upstream : {S : Type 0} → Option (Result DialError S) → Result HttpError S
dial_upstream none = err dial_timeout
dial_upstream (some (ok upstream)) = ok upstream
dial_upstream (some (err e)) = err (dial e)

pub record Established (S : Type 0) : Type 0 where
  pub target : Target
  pub upstream : S
  pub pending : Bytes

abbrev pub established_line : Bytes
established_line = codes "HTTP/1.1 200 Connection established" ++ crlf ++ crlf

unfoldable pub answer_dial : {S : Type 0} → Negotiated → Result HttpError S → Talk (Established S)
unfolding write answer_with status
answer_dial head (err e) = answer_with e false (status e)
answer_dial head (ok upstream) =
    write established_line
    >> pure (record { target = head.target; upstream = upstream; pending = head.pending })

-- `handshake`, with the dialer's answer for each destination
unfoldable pub handshake :
    {S : Type 0}
    → (Text → Option Bytes)
    → Peer
    → HttpConfig
    → (Target → Option (Result DialError S))
    → Talk (Established S)
unfolding negotiate answer_elapsed dial_upstream answer_dial
handshake decode peer config dialer =
    (λ w. answer_elapsed (negotiate decode peer config w).0 (negotiate decode peer config w).1)
    >>= λ head. answer_dial head (dial_upstream (dialer head.target))

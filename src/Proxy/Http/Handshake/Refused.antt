-- ===== src/Proxy/Http/Handshake/Refused.antt =====
-- What a client of proxy/src/http.rs is told that is not let past the login.
use thisconnect.Prelude.{
  ◌<◌, ◌≡◌, refl, ap, ap₂, ◌∙◌, inl, inr, Bool, true, false, Option, none, some, List, ◌++◌,
  Bool-cases, Result, ok, err,
}
use thisconnect.Prelude.Text.{Text, Bytes, codes}
use thisconnect.Prelude.Exec.{continue}
use thisconnect.Prelude.Utf8.{from_utf8}
use thisconnect.Net.{show}
use thisconnect.Proxy.Socks5.{Target, DialError, Credentials, AuthPolicy, required}
use thisconnect.Proxy.Socks5.Limiter.{has_capacity_at}
use thisconnect.Proxy.Socks5.Handshake.{Peer}
use thisconnect.Proxy.Http.{
  HttpError, auth_required, auth_failed, auth_rate_limited, HttpConfig, status,
  st_proxy_auth_required, is_auth_error,
}
use thisconnect.Proxy.Http.Client.{Client, Stop, failed}
use thisconnect.Proxy.Http.Head.{RawHead, read_head}
use thisconnect.Proxy.Http.Request.{Header, Head, is_authorization, parse_head}
use thisconnect.Proxy.Http.Handshake.{
  find_header, accepts, judge, authorize, record_failure, negotiate_inner, admit, judge_head,
  response, handshake,
}
use thisconnect.Proxy.Http.Handshake.Login.{read_head-keeps}
use thisconnect.Proxy.Http.Handshake.Answered.{handshake_told}

-- A client that may not be let past the login: it has sent none, or a wrong one, or one from an
-- address that has no capacity left in the throttle.
pub data IsUnproven (decode : Text → Option Bytes) (peer : Peer) (c : Credentials) (w : Client)
    (headers : List Header) : Type 0 where
  missing : find_header is_authorization headers ≡ none → IsUnproven decode peer c w headers
  wrong :
      (h : Header)
      → find_header is_authorization headers ≡ some h
      → accepts decode c h.value ≡ false
      → IsUnproven decode peer c w headers
  throttled :
      (h : Header)
      → find_header is_authorization headers ≡ some h
      → has_capacity_at peer.address peer.asked_at w.buckets ≡ false
      → IsUnproven decode peer c w headers

-- An error that is answered with the challenge.
pub record IsDenied (m : Result Stop Unit × Client) : Type 0 where
  pub error : HttpError
  pub after : Client
  pub same : m ≡ (err (failed error), after)
  pub told : status error ≡ some st_proxy_auth_required
  pub challenged : is_auth_error error ≡ true

judge_throttled :
    (decode : Text → Option Bytes) (peer : Peer) (c : Credentials) (h : Header) (v : Client)
    → has_capacity_at peer.address peer.asked_at v.buckets ≡ false
    → IsDenied (judge decode peer c (some h) v)
unfolding judge status
judge_throttled decode peer c h v none_left = record {
  error = auth_rate_limited;
  after = v;
  same = rw none_left refl;
  told = refl;
  challenged = refl;
}

judge_wrong :
    (decode : Text → Option Bytes) (peer : Peer) (c : Credentials) (h : Header) (v : Client)
    → has_capacity_at peer.address peer.asked_at v.buckets ≡ true
    → accepts decode c h.value ≡ false
    → IsDenied (judge decode peer c (some h) v)
unfolding judge status record_failure
judge_wrong decode peer c h v capable other = record {
  error = auth_failed;
  after = (record_failure peer v).1;
  same = rw (capable, other) refl;
  told = refl;
  challenged = refl;
}

judge-IsDenied :
    (decode : Text → Option Bytes) (peer : Peer) (c : Credentials) (headers : List Header)
    (w v : Client)
    → v.buckets ≡ w.buckets
    → IsUnproven decode peer c w headers
    → IsDenied (judge decode peer c (find_header is_authorization headers) v)
judge-IsDenied decode peer c headers w v kept (missing e) = rw e (
    unfold judge status in
    record { error = auth_required; after = v; same = refl; told = refl; challenged = refl })
judge-IsDenied decode peer c headers w v kept (throttled h e f) =
    rw e (judge_throttled decode peer c h v (rw kept f))
judge-IsDenied decode peer c headers w v kept (wrong h e f) =
    elim (Bool-cases (has_capacity_at peer.address peer.asked_at v.buckets)) [
      | inl capable ↦ rw e (judge_wrong decode peer c h v capable f)
      | inr none_left ↦ rw e (judge_throttled decode peer c h v none_left)
    ]

judge_head-denied :
    (decode : Text → Option Bytes) (peer : Peer) (config : HttpConfig) (raw : RawHead) (text : Text)
    (head : Head) (e : HttpError) (u v : Client)
    → from_utf8 raw.head ≡ some text
    → parse_head text ≡ ok head
    → authorize decode head peer config.auth u ≡ (err (failed e), v)
    → judge_head decode peer config raw u ≡ (err (failed e), v)
unfolding judge_head admit
judge_head-denied decode peer config raw text head e u v decoded parsed denied =
    rw (decoded, parsed, denied) refl

-- The bytes of the answer: status 407 and the challenge.
abbrev pub challenge_answer : Bytes
challenge_answer =
    codes
      "HTTP/1.1 407 Proxy Authentication Required\r\nProxy-Authenticate: Basic realm=\"thisconnect\", charset=\"UTF-8\"\r\nContent-Length: 0\r\nConnection: close\r\n\r\n"

challenge_told : response st_proxy_auth_required true ≡ challenge_answer
unfolding response show
challenge_told = refl

-- Where a password is required, a client whose head is accepted and that sent no login, one that
-- sent a wrong one, and one whose address is throttled, whatever login it sent, are told the same
-- bytes where they take a write: status 407 and the challenge, and nothing else. So none of them can
-- tell which it is.
pub handshake-alike :
    {S : Type 0} (decode : Text → Option Bytes) (peer : Peer) (config : HttpConfig)
    (c : Credentials) (dialer : Target → Option (Result DialError S)) (w u : Client) (raw : RawHead)
    (text : Text) (head : Head)
    → config.auth ≡ required c
    → read_head w ≡ (ok raw, u)
    → from_utf8 raw.head ≡ some text
    → parse_head text ≡ ok head
    → IsUnproven decode peer c w head.headers
    → 0 < w.writes_left
    → (handshake decode peer config dialer w).1.output ≡ w.output ++ challenge_answer
unfolding authorize negotiate_inner
handshake-alike decode peer config c dialer w u raw text head auth read decoded parsed unproven
      some_left =
    let d = judge-IsDenied decode peer c head.headers w u (read_head-keeps w u raw read) unproven in
    let denied = ap (λ (a : AuthPolicy). authorize decode head peer a u) auth ∙ d.same in
    let stopped =
      ap (λ m. continue m.0 (judge_head decode peer config) m.1) read
      ∙ judge_head-denied decode peer config raw text head d.error u d.after decoded parsed
          denied in
    let (returned, same) =
      handshake_told decode peer config dialer w d.after (failed d.error) st_proxy_auth_required
        stopped d.told some_left in
    ap (λ m. m.1.output) returned
    ∙ ap₂ (λ (o : Bytes) (b : Bool). o ++ response st_proxy_auth_required b) same d.challenged
    ∙ ap (λ (o : Bytes). w.output ++ o) challenge_told

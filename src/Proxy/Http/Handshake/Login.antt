-- ===== src/Proxy/Http/Handshake/Login.antt =====
-- What it takes in proxy/src/http.rs to be let past the login, and that an answer to an error never
-- lets anyone past.
use thisconnect.Prelude.{
  ◌≡◌, refl, sym, ap, Bool, true, false, not, Option, none, some, List, if◌then◌else◌, Result, ok,
  err, ok-injective,
}
use thisconnect.Prelude.Text.{Text, Bytes}
use thisconnect.Prelude.Exec.{raise, ◌>>◌, exec_parts}
use thisconnect.Proxy.Socks5.{Credentials}
use thisconnect.Proxy.Socks5.Limiter.{has_capacity_at}
use thisconnect.Proxy.Socks5.Handshake.{Peer}
use thisconnect.Proxy.Http.{
  st_request_timeout, HttpError, status, is_auth_error, auth_failed, auth_rate_limited, Status,
}
use thisconnect.Proxy.Http.Client.{Client, Stop, failed, elapsed, Talk}
use thisconnect.Proxy.Http.Head.{RawHead, read_head}
use thisconnect.Proxy.Http.Request.{Header, is_authorization}
use thisconnect.Proxy.Http.Handshake.{
  returning, find_header, accepts, record_failure, judge, utf8_head, respond, answer_with,
  answer_stop, answer_elapsed,
}

pub returning_ok :
    {A : Type 0} (r : Result HttpError A) (w v : Client) (a : A)
    → returning r w ≡ (ok a, v)
    → (r ≡ ok a) × (w ≡ v)
returning_ok (ok b) w v a h = (ap ok (ok-injective (ap (λ x. x.0) h)), ap (λ x. x.1) h)
returning_ok (err e) w v a h = cc

pub read_head-keeps :
    (w v : Client) (raw : RawHead) → read_head w ≡ (ok raw, v) → v.buckets ≡ w.buckets
unfolding read_head
read_head-keeps w v raw h = ap (λ x. x.1.buckets) (sym h)

pub utf8_ok : (o : Option Text) (s : Text) → utf8_head o ≡ ok s → o ≡ some s
utf8_ok none s h = cc
utf8_ok (some t) s h = ap some (ok-injective h)

-- An answer to an error never returns a value.
pub unanswered :
    {A : Type 0} (e : HttpError) (challenge : Bool) (o : Option Status) (w v : Client) (a : A)
    → answer_with e challenge o w ≡ (ok a, v)
    → ⊥
unfolding answer_with
unanswered e challenge none w v a h = cc
unanswered e challenge (some st) w v a h =
    let (_, u, _, k) = exec_parts (respond st challenge) _ w v a h in cc

pub answer_stop_ok :
    {A : Type 0} (r : Result Stop A) (w v : Client) (a : A)
    → answer_stop r w ≡ (ok a, v)
    → (r ≡ ok a) × (w ≡ v)
unfolding answer_stop
answer_stop_ok (ok b) w v a h = (ap ok (ok-injective (ap (λ x. x.0) h)), ap (λ x. x.1) h)
answer_stop_ok (err elapsed) w v a h = cc
answer_stop_ok (err (failed e)) w v a h =
    elim (unanswered e (is_auth_error e) (status e) w v a h) [ ]

pub answer_elapsed_ok :
    {A : Type 0} (r : Result Stop A) (w v : Client) (a : A)
    → answer_elapsed r w ≡ (ok a, v)
    → (r ≡ ok a) × (w ≡ v)
unfolding answer_elapsed
answer_elapsed_ok (ok b) w v a h = (ap ok (ok-injective (ap (λ x. x.0) h)), ap (λ x. x.1) h)
answer_elapsed_ok (err (failed e)) w v a h = cc
answer_elapsed_ok (err elapsed) w v a h =
    let (_, u, _, k) = exec_parts (respond st_request_timeout false) _ w v a h in cc

-- What a client that gets through has sent: a `Proxy-Authorization` that spells the credentials,
-- while its address had capacity left in the throttle.
pub record IsLogin (decode : Text → Option Bytes) (peer : Peer) (c : Credentials) (w : Client)
    (headers : List Header) : Type 0 where
  pub header : Header
  pub sent : find_header is_authorization headers ≡ some header
  pub spelled : accepts decode c header.value ≡ true
  pub capable : has_capacity_at peer.address peer.asked_at w.buckets ≡ true

denied :
    (m : Talk Unit) (e : HttpError) (w v : Client) (u : Unit)
    → (m >> raise (failed e)) w ≡ (ok u, v)
    → ⊥
denied m e w v u h = let (_, x, _, k) = exec_parts m _ w v u h in cc

judged :
    (c d : Bool) (m : Talk Unit) (w v : Client) (u : Unit)
    → ◌≡◌ {A = Result Stop Unit × Client}
        (if not c
          then (err (failed auth_rate_limited), w)
          else if d
          then (ok tt, w)
          else (m >> raise (failed auth_failed)) w)
        (ok u, v)
    → (c ≡ true) × (d ≡ true)
judged false d m w v u h = cc
judged true true m w v u h = (refl, refl)
judged true false m w v u h = elim (denied m auth_failed w v u h) [ ]

pub judge-IsLogin :
    (decode : Text → Option Bytes) (peer : Peer) (c : Credentials) (o : Option Header)
    (headers : List Header) (w v : Client) (u : Unit)
    → find_header is_authorization headers ≡ o
    → judge decode peer c o w ≡ (ok u, v)
    → IsLogin decode peer c w headers
unfolding judge
judge-IsLogin decode peer c none headers w v u e h = cc
judge-IsLogin decode peer c (some header) headers w v u e h =
    let (capable, spelled) =
      judged (has_capacity_at peer.address peer.asked_at w.buckets) (accepts decode c header.value)
        (record_failure peer) w v u h in
    record { header = header; sent = e; spelled = spelled; capable = capable }

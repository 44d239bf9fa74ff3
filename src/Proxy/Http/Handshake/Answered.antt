-- ===== src/Proxy/Http/Handshake/Answered.antt =====
-- What a client of proxy/src/http.rs is answered where its request fails.
use thisconnect.Prelude.{
  ℕ, some-injective, ◌-◌, ◌<◌, ◌≡◌, refl, sym, ap, ◌∙◌, Bool, true, false, not, Option, none, some,
  ◌++◌, arith, ◌==◌, if◌then◌else◌, Result, ok, err,
}
use thisconnect.Prelude.Text.{Text, Bytes}
use thisconnect.Prelude.Exec.{pure, raise, continue, ◌>>=◌}
use thisconnect.Prelude.Utf8.{from_utf8}
use thisconnect.Proxy.Socks5.{Target, DialError, Credentials, AuthPolicy, required, disabled}
use thisconnect.Proxy.Socks5.Limiter.{has_capacity_at}
use thisconnect.Proxy.Socks5.Handshake.{Peer}
use thisconnect.Proxy.Http.{
  HttpError, auth_required, malformed, head_too_large, too_many_headers, method_not_supported,
  absolute_form_unsupported, invalid_destination, ipv6_unsupported, auth_failed, auth_rate_limited,
  handshake_timeout, HttpConfig, Status, status, st_request_timeout, is_auth_error,
}
use thisconnect.Proxy.Http.Client.{Client, Stop, failed, elapsed, Talk, write}
use thisconnect.Proxy.Http.Head.{RawHead, read_head}
use thisconnect.Proxy.Http.Request.{Header, Head, is_authorization, parse_head}
use thisconnect.Proxy.Http.Authority.{target_from_authority}
use thisconnect.Proxy.Http.Handshake.{
  returning, find_header, accepts, record_failure, judge, authorize, Negotiated, utf8_head,
  negotiate_inner, admit, judge_head, response, respond, answer_with, answer_stop, negotiate,
  answer_elapsed, dial_upstream, answer_dial, handshake,
}

-- Nothing is written to the client.
abbrev IsSilentAt : {A : Type 0} → Client → Result Stop A × Client → Type 0
IsSilentAt w after = (after.1.output ≡ w.output) × (after.1.writes_left ≡ w.writes_left)

abbrev IsSilent : {A : Type 0} → Talk A → Type 0
IsSilent m = (w : Client) → IsSilentAt w (m w)

continue-IsSilentAt :
    {A B : Type 0} (r : Result Stop A) (u w : Client) (f : A → Talk B)
    → IsSilentAt w (r, u)
    → ((a : A) → IsSilent (f a))
    → IsSilentAt w (continue r f u)
continue-IsSilentAt (ok a) u w f (p, q) h = ((h a u).0 ∙ p, (h a u).1 ∙ q)
continue-IsSilentAt (err e) u w f s h = s

returning-IsSilent : {A : Type 0} (r : Result HttpError A) → IsSilent (returning r)
returning-IsSilent (ok a) w = (refl, refl)
returning-IsSilent (err e) w = (refl, refl)

read_head-IsSilent : IsSilent read_head
unfolding read_head
read_head-IsSilent w = (refl, refl)

if-IsSilentAt :
    {A : Type 0} (c : Bool) (x y : Result Stop A × Client) (w : Client)
    → IsSilentAt w x
    → IsSilentAt w y
    → IsSilentAt w (if c then x else y)
if-IsSilentAt true x y w h k = h
if-IsSilentAt false x y w h k = k

judge-IsSilent :
    (decode : Text → Option Bytes) (peer : Peer) (c : Credentials) (o : Option Header)
    → IsSilent (judge decode peer c o)
unfolding judge record_failure
judge-IsSilent decode peer c none w = (refl, refl)
judge-IsSilent decode peer c (some header) w =
    if-IsSilentAt (not (has_capacity_at peer.address peer.asked_at w.buckets)) _ _ w (refl, refl)
      (if-IsSilentAt (accepts decode c header.value) _ _ w (refl, refl) (refl, refl))

authorize-IsSilent :
    (decode : Text → Option Bytes) (head : Head) (peer : Peer) (a : AuthPolicy)
    → IsSilent (authorize decode head peer a)
unfolding authorize
authorize-IsSilent decode head peer disabled w = (refl, refl)
authorize-IsSilent decode head peer (required c) w =
    judge-IsSilent decode peer c (find_header is_authorization head.headers) w

admit-IsSilent :
    (decode : Text → Option Bytes) (peer : Peer) (config : HttpConfig) (pending : Bytes) (h : Head)
    → IsSilent (admit decode peer config pending h)
unfolding admit
admit-IsSilent decode peer config pending h w =
    continue-IsSilentAt (authorize decode h peer config.auth w).0
      (authorize decode h peer config.auth w).1 w
      (λ _. returning (target_from_authority h.target config) >>= λ target.
        pure (record { target = target; pending = pending }))
      (authorize-IsSilent decode h peer config.auth w)
      (λ _ v.
        continue-IsSilentAt (returning (target_from_authority h.target config) v).0
          (returning (target_from_authority h.target config) v).1 v
          (λ target. pure (record { target = target; pending = pending }))
          (returning-IsSilent (target_from_authority h.target config) v) (λ target u. (refl, refl)))

judge_head-IsSilent :
    (decode : Text → Option Bytes) (peer : Peer) (config : HttpConfig) (raw : RawHead)
    → IsSilent (judge_head decode peer config raw)
unfolding judge_head
judge_head-IsSilent decode peer config raw = judged (utf8_head (from_utf8 raw.head))
  where
    parsed :
        (r : Result HttpError Head)
        → IsSilent (returning r >>= admit decode peer config raw.pending)
    parsed (ok h) w = admit-IsSilent decode peer config raw.pending h w
    parsed (err e) w = (refl, refl)

    judged :
        (r : Result HttpError Text)
        → IsSilent (
            returning r >>= λ head.
            returning (parse_head head) >>= admit decode peer config raw.pending)
    judged (ok head) w = parsed (parse_head head) w
    judged (err e) w = (refl, refl)

negotiate_inner-IsSilent :
    (decode : Text → Option Bytes) (peer : Peer) (config : HttpConfig)
    → IsSilent (negotiate_inner decode peer config)
unfolding negotiate_inner
negotiate_inner-IsSilent decode peer config w =
    continue-IsSilentAt (read_head w).0 (read_head w).1 w (judge_head decode peer config)
      (read_head-IsSilent w) (judge_head-IsSilent decode peer config)

-- The client after an answer that could be written.
abbrev pub answered : Client → Bytes → Client
answered u bytes = record u { writes_left = u.writes_left - 1; output = u.output ++ bytes }

write-answered :
    (bytes : Bytes) (u : Client) → 0 < u.writes_left → write bytes u ≡ (ok tt, answered u bytes)
unfolding write
write-answered bytes u h =
    let some_left : (u.writes_left == 0) ≡ false = ground (arith, h) in rw some_left refl

answer_with-answered :
    {A : Type 0} (e : HttpError) (challenge : Bool) (st : Status) (u : Client)
    → 0 < u.writes_left
    → ◌≡◌ {A = Result Stop A × Client}
        (answer_with e challenge (some st) u)
        (err (failed e), answered u (response st challenge))
unfolding answer_with respond
answer_with-answered e challenge st u h =
    ap (λ r. continue r.0 (λ _. raise (failed e)) r.1) (write-answered (response st challenge) u h)

-- the answer to a result of the negotiation, and what is returned
abbrev pub final_error : Stop → HttpError
final_error (failed e) = e
final_error elapsed = handshake_timeout

-- what is made of a result of `negotiate_inner` in `negotiate`, and then in `handshake`
abbrev settled : Result Stop Negotiated × Client → Result Stop Negotiated × Client
settled m = answer_elapsed (answer_stop (m.0) (m.1)).0 (answer_stop (m.0) (m.1)).1

settled_error :
    (stop : Stop) (st : Status) (u : Client)
    → status (final_error stop) ≡ some st
    → 0 < u.writes_left
    → settled (err stop, u) ≡ (
      err (failed (final_error stop)),
      answered u (response st (is_auth_error (final_error stop))),
    )
unfolding answer_stop answer_elapsed status
settled_error elapsed st u h some_left =
    rw (← some-injective h)
      (answer_with-answered handshake_timeout false st_request_timeout u some_left)
settled_error (failed e) st u h some_left =
    ap (λ (m : Result Stop Negotiated × Client). answer_elapsed m.0 m.1)
      (ap (λ o. answer_with e (is_auth_error e) o u) h
        ∙ answer_with-answered e (is_auth_error e) st u some_left)

pub handshake_told :
    {S : Type 0} (decode : Text → Option Bytes) (peer : Peer) (config : HttpConfig)
    (dialer : Target → Option (Result DialError S)) (w u : Client) (stop : Stop) (st : Status)
    → negotiate_inner decode peer config w ≡ (err stop, u)
    → status (final_error stop) ≡ some st
    → 0 < w.writes_left
    → (handshake decode peer config dialer w ≡ (
      err (failed (final_error stop)),
      answered u (response st (is_auth_error (final_error stop))),
    ))
      × (u.output ≡ w.output)
unfolding handshake negotiate
handshake_told decode peer config dialer w u stop st h k some_left =
    let (same_output, same_left) = negotiate_inner-IsSilent decode peer config w in
    let left : u.writes_left ≡ w.writes_left = ap (λ m. m.1.writes_left) (sym h) ∙ same_left in
    (
      ap (λ m. continue m.0 (λ n. answer_dial n (dial_upstream (dialer n.target))) m.1)
          (ap settled h ∙ settled_error stop st u k (rw left some_left)),
      ap (λ m. m.1.output) (sym h) ∙ same_output,
    )

-- The answers to the errors of a negotiation: the code of the status, and whether the challenge
-- goes with it.
pub data AnsweredBy : Stop → ℕ → Bool → Type 0 where
  bad_request : (why : Text) → AnsweredBy (failed (malformed why)) 400 false
  bad_destination : (why : Text) → AnsweredBy (failed (invalid_destination why)) 400 false
  family_refused : AnsweredBy (failed ipv6_unsupported) 403 false
  login_missing : AnsweredBy (failed auth_required) 407 true
  login_wrong : AnsweredBy (failed auth_failed) 407 true
  login_throttled : AnsweredBy (failed auth_rate_limited) 407 true
  too_late : AnsweredBy elapsed 408 false
  head_too_long : AnsweredBy (failed head_too_large) 431 false
  headers_too_many : AnsweredBy (failed too_many_headers) 431 false
  other_method : (m : Text) → AnsweredBy (failed (method_not_supported m)) 501 false
  absolute_form : AnsweredBy (failed absolute_form_unsupported) 501 false

answered_status :
    (stop : Stop) (code : ℕ) (challenge : Bool)
    → AnsweredBy stop code challenge
    → (reason : Text) × (status (final_error stop) ≡ some (code, reason))
      × (is_auth_error (final_error stop) ≡ challenge)
unfolding status
answered_status stop code challenge (bad_request why) = (_, refl, refl)
answered_status stop code challenge (bad_destination why) = (_, refl, refl)
answered_status stop code challenge family_refused = (_, refl, refl)
answered_status stop code challenge login_missing = (_, refl, refl)
answered_status stop code challenge login_wrong = (_, refl, refl)
answered_status stop code challenge login_throttled = (_, refl, refl)
answered_status stop code challenge too_late = (_, refl, refl)
answered_status stop code challenge head_too_long = (_, refl, refl)
answered_status stop code challenge headers_too_many = (_, refl, refl)
answered_status stop code challenge (other_method m) = (_, refl, refl)
answered_status stop code challenge absolute_form = (_, refl, refl)

-- A negotiation that fails by an error of `AnsweredBy` or by the timeout is answered, where the
-- client takes a write, with the code that stands there, with the challenge exactly where a login is
-- missing, wrong or throttled; nothing else is written to the client, and `handshake` returns the
-- error.
pub handshake-answers :
    {S : Type 0} (decode : Text → Option Bytes) (peer : Peer) (config : HttpConfig)
    (dialer : Target → Option (Result DialError S)) (w u : Client) (stop : Stop) (code : ℕ)
    (challenge : Bool)
    → negotiate_inner decode peer config w ≡ (err stop, u)
    → AnsweredBy stop code challenge
    → 0 < w.writes_left
    → (reason : Text) × (handshake decode peer config dialer w
        ≡ (err (failed (final_error stop)), answered u (response (code, reason) challenge)))
      × (u.output ≡ w.output)
handshake-answers decode peer config dialer w u stop code challenge h k some_left =
    let (reason, st, challenged) = answered_status stop code challenge k in
    let (told, same) =
      handshake_told decode peer config dialer w u stop (code, reason) h st some_left in
    (
      reason,
      told
          ∙ ap
              (λ (b : Bool).
                (err (failed (final_error stop)), answered u (response (code, reason) b)))
              challenged,
      same,
    )

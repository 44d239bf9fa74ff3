-- ===== src/Proxy/Socks5/Handshake/Connected.antt =====
-- A well-formed client of proxy/src/socks5.rs that may log in is connected to where it asks.
use thisconnect.Prelude.{
  refl, subst, sym, ap, any, arith, ◌==◌, true, ◌<◌, ◌≤◌, ℕ, ◌+◌, ◌*◌, ◌≡◌, ◌∙◌, [], ◌∷◌, ◌++◌,
  append_assoc, Result, ok, length,
}
use thisconnect.Prelude.Text.{Bytes}
use thisconnect.Prelude.Exec.{pure, ◌>>=◌, ◌>>◌}
use thisconnect.Net.{IpAddr, v4, v6}
use thisconnect.Proxy.Socks5.{
  rep_success, Target, DialError, Socks5Error, Credentials, AuthPolicy, required, disabled,
  Socks5Config, method_none, method_userpass, ver_socks5, ver_userpass, auth_ok, cmd_connect,
  atyp_domain, atyp_v4, atyp_v6,
}
use thisconnect.Proxy.Socks5.Client.{Client, Talk, read_exact}
use thisconnect.Proxy.Socks5.Handshake.{
  write_reply, Peer, byte_at, has_capacity, greet, authenticate_if_required, finish_ip_target,
  domain_target, returning, read_port, read_target, read_request, answer_error, negotiate,
  answer_dial, handshake,
}
use thisconnect.Proxy.Socks5.Handshake.Sent.{login, prefixed}
use thisconnect.Proxy.Socks5.Handshake.Welcomed.{
  at_input, told, bind_ok, read_then, read_prefixed_then, write-told, greet-told, authenticate-told,
}

-- What a client asks for: a name as bytes, or an address.
pub data Asked : Type 0 where
  named : Bytes → Asked
  numbered : IpAddr → Asked

abbrev pub IsSized : Asked → Type 0
IsSized (named raw) = Unit
IsSized (numbered (v4 o)) = length o ≡ 4
IsSized (numbered (v6 o)) = length o ≡ 16

abbrev pub asked_type : Asked → ℕ
asked_type (named raw) = atyp_domain
asked_type (numbered (v4 o)) = atyp_v4
asked_type (numbered (v6 o)) = atyp_v6

abbrev pub asked_bytes : Asked → Bytes
asked_bytes (named raw) = prefixed raw
asked_bytes (numbered (v4 o)) = o
asked_bytes (numbered (v6 o)) = o

-- The destination that it asks for, where that may be dialled.
abbrev pub asked_target : Asked → ℕ → Socks5Config → Result Socks5Error Target
asked_target (named raw) port config = domain_target raw port config
asked_target (numbered a) port config = finish_ip_target a port config

-- A request to connect, as it is sent.
abbrev pub request : Asked → ℕ → ℕ → Bytes
request asked hi lo =
    (ver_socks5 ∷ cmd_connect ∷ 0 ∷ asked_type asked ∷ []) ++ (asked_bytes asked ++ (hi ∷ lo ∷ []))

read_sized_then :
    {B : Type 0} (n : ℕ) (a rest : Bytes) (f : Bytes → Talk B) (w : Client)
    → length a ≡ n
    → (read_exact n >>= f) (at_input (a ++ rest) w) ≡ f a (at_input rest w)
read_sized_then n a rest f w h =
    subst (λ m. (read_exact m >>= f) (at_input (a ++ rest) w) ≡ f a (at_input rest w)) h
      (read_then a rest f w)

read_port_then :
    {B : Type 0} (hi lo : ℕ) (rest : Bytes) (f : ℕ → Talk B) (w : Client)
    → (read_port >>= f) (at_input (hi ∷ lo ∷ rest) w) ≡ f (hi * 256 + lo) (at_input rest w)
unfolding read_port
read_port_then hi lo rest f w =
    bind_ok read_port f (at_input (hi ∷ lo ∷ rest) w) (at_input rest w) (hi * 256 + lo)
      (read_then (hi ∷ lo ∷ []) rest (λ port. pure (byte_at port 0 * 256 + byte_at port 1)) w)

read_target-request :
    (asked : Asked) (hi lo : ℕ) (rest : Bytes) (config : Socks5Config) (w : Client)
    → IsSized asked
    → read_target (asked_type asked) config (at_input (asked_bytes asked ++ (hi ∷ lo ∷ rest)) w)
      ≡ (asked_target asked (hi * 256 + lo) config, at_input rest w)
unfolding read_target
read_target-request (named raw) hi lo rest config w sized =
    read_prefixed_then raw (hi ∷ lo ∷ rest) _ w
    ∙ read_port_then hi lo rest (λ port. returning (domain_target raw port config)) w
read_target-request (numbered (v4 o)) hi lo rest config w sized =
    read_sized_then 4 o (hi ∷ lo ∷ rest) _ w sized
    ∙ read_port_then hi lo rest (λ port. returning (finish_ip_target (v4 o) port config)) w
read_target-request (numbered (v6 o)) hi lo rest config w sized =
    read_sized_then 16 o (hi ∷ lo ∷ rest) _ w sized
    ∙ read_port_then hi lo rest (λ port. returning (finish_ip_target (v6 o) port config)) w

read_request-request :
    (asked : Asked) (hi lo : ℕ) (rest : Bytes) (config : Socks5Config) (w : Client) (t : Target)
    → IsSized asked
    → asked_target asked (hi * 256 + lo) config ≡ ok t
    → read_request config (at_input (request asked hi lo ++ rest) w) ≡ (ok t, at_input rest w)
unfolding read_request
read_request-request asked hi lo rest config w t sized may =
    read_then (ver_socks5 ∷ cmd_connect ∷ 0 ∷ asked_type asked ∷ [])
      ((asked_bytes asked ++ (hi ∷ lo ∷ [])) ++ rest) _ w
    ∙ bind_ok (read_target (asked_type asked) config) _
        (at_input ((asked_bytes asked ++ (hi ∷ lo ∷ [])) ++ rest) w) (at_input rest w) t
        (ap (λ (x : Bytes). read_target (asked_type asked) config (at_input x w))
            (append_assoc (asked_bytes asked) (hi ∷ lo ∷ []) rest)
          ∙ read_target-request asked hi lo rest config w sized
          ∙ ap (λ (r : Result Socks5Error Target). (r, at_input rest w)) may)

-- The client after its greeting, its login and the answer to its request.
abbrev pub served : Bytes → Client → Client
served rest w = told (ver_socks5 ∷ rep_success ∷ 0x00 ∷ atyp_v4 ∷ 0 ∷ 0 ∷ 0 ∷ 0 ∷ 0 ∷ 0 ∷ []) (
    told (ver_userpass ∷ auth_ok ∷ []) (told (ver_socks5 ∷ method_userpass ∷ []) (at_input rest w)))

offered_required :
    (a : AuthPolicy) (c : Credentials)
    → a ≡ required c
    → (elim a [ required k ↦ method_userpass | disabled ↦ method_none ]) ≡ method_userpass
offered_required a c e = rw e refl

greet_required :
    (config : Socks5Config) (c : Credentials) (methods rest : Bytes) (w : Client)
    → config.auth ≡ required c
    → any (λ m. m == method_userpass) methods ≡ true
    → 0 < w.writes_left
    → greet config (at_input ((ver_socks5 ∷ prefixed methods) ++ rest) w)
      ≡ (ok tt, told (ver_socks5 ∷ method_userpass ∷ []) (at_input rest w))
greet_required config c methods rest w e offered left =
    let same = offered_required config.auth c e in
    greet-told config methods rest w
      (subst (λ n. any (λ m. m == n) methods ≡ true) (sym same) offered) left
    ∙ ap (λ (n : ℕ). (ok tt, told (ver_socks5 ∷ n ∷ []) (at_input rest w))) same

-- The client after its login.
abbrev logged_in : Bytes → Client → Client
logged_in rest w =
    told (ver_userpass ∷ auth_ok ∷ []) (told (ver_socks5 ∷ method_userpass ∷ []) (at_input rest w))

abbrev last_part : Socks5Config → Talk Target
last_part config w = answer_error (read_request config w).0 (read_request config w).1

answered-ok :
    (config : Socks5Config) (w v : Client) (t : Target)
    → read_request config w ≡ (ok t, v)
    → last_part config w ≡ (ok t, v)
unfolding answer_error
answered-ok config w v t h = ap (λ (r : Result Socks5Error Target × Client). answer_error r.0 r.1) h

negotiate-logged_in :
    (peer : Peer) (config : Socks5Config) (c : Credentials) (methods : Bytes) (asked : Asked)
    (hi lo : ℕ) (rest : Bytes) (w : Client) (t : Target)
    → config.auth ≡ required c
    → any (λ m. m == method_userpass) methods ≡ true
    → IsSized asked
    → asked_target asked (hi * 256 + lo) config ≡ ok t
    → has_capacity peer w ≡ true
    → 2 ≤ w.writes_left
    → negotiate peer config
        (at_input ((ver_socks5 ∷ prefixed methods) ++ (login c ++ (request asked hi lo ++ rest))) w)
      ≡ (ok t, logged_in rest w)
unfolding negotiate has_capacity authenticate_if_required
negotiate-logged_in peer config c methods asked hi lo rest w t e offered sized may capable left =
    let wanted = request asked hi lo ++ rest in
    let greeted = told (ver_socks5 ∷ method_userpass ∷ []) w in
    bind_ok (greet config) (λ _. authenticate_if_required peer config.auth >> last_part config)
      (at_input ((ver_socks5 ∷ prefixed methods) ++ (login c ++ wanted)) w)
      (at_input (login c ++ wanted) greeted) tt
      (greet_required config c methods (login c ++ wanted) w e offered (omega (arith, left)))
    ∙ bind_ok (authenticate_if_required peer config.auth) (λ _. last_part config)
        (at_input (login c ++ wanted) greeted) (logged_in wanted w) tt
        (ap
            (λ (a : AuthPolicy).
              authenticate_if_required peer a (at_input (login c ++ wanted) greeted))
            e
          ∙ authenticate-told peer c wanted greeted capable (omega (arith, left)))
    ∙ answered-ok config (logged_in wanted w) (logged_in rest w) t
        (read_request-request asked hi lo rest config (logged_in wanted w) t sized may)

-- Where a password is required and the peer has capacity left in the throttle, a client that offers
-- the password method, logs in with the credentials and asks for a destination that may be dialled
-- is connected to it once the dialer opens it: it is told the method, the success of its login and
-- the success of its request, in this order, and what it sent behind its request is left unread.
-- This takes three writes that succeed.
pub handshake-served :
    {S : Type 0} (peer : Peer) (config : Socks5Config) (c : Credentials)
    (dialer : Target → Result DialError S) (methods : Bytes) (asked : Asked) (hi lo : ℕ)
    (rest : Bytes) (w : Client) (t : Target) (s : S)
    → config.auth ≡ required c
    → any (λ m. m == method_userpass) methods ≡ true
    → IsSized asked
    → asked_target asked (hi * 256 + lo) config ≡ ok t
    → dialer t ≡ ok s
    → has_capacity peer w ≡ true
    → 3 ≤ w.writes_left
    → handshake peer config dialer
        (at_input ((ver_socks5 ∷ prefixed methods) ++ (login c ++ (request asked hi lo ++ rest))) w)
      ≡ (ok (t, s), served rest w)
unfolding handshake answer_dial write_reply
handshake-served {S = S} peer config c dialer methods asked hi lo rest w t s e offered sized may
      dialled capable left =
    bind_ok (negotiate peer config) (λ target. answer_dial target (dialer target))
      (at_input ((ver_socks5 ∷ prefixed methods) ++ (login c ++ (request asked hi lo ++ rest))) w)
      (logged_in rest w) t
      (negotiate-logged_in peer config c methods asked hi lo rest w t e offered sized may capable
        (omega (arith, left)))
    ∙ ap (λ (r : Result DialError S). answer_dial t r (logged_in rest w)) dialled
    ∙ bind_ok (write_reply rep_success) (λ _. pure (t, s)) (logged_in rest w) (served rest w) tt
        (write-told _ (logged_in rest w) (omega (arith, left)))

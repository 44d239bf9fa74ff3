-- ===== src/Proxy/Socks5/Handshake/Authenticated.antt =====
-- Who gets through the handshake of proxy/src/socks5.rs where a password is required.
use thisconnect.Prelude.{
  ◌≡◌, refl, sym, ap, subst, ◌∙◌, true, ◌∷◌, ◌++◌, ◌==◌, Result, ok, err, ok-injective, any,
}
use thisconnect.Prelude.Text.{Bytes}
use thisconnect.Prelude.Exec.{raise, ◌>>◌, exec_parts}
use thisconnect.Proxy.Socks5.Limiter.{has_capacity_at}
use thisconnect.Proxy.Socks5.{
  rep_success, dial, dial_reply_code, Target, DialError, Credentials, AuthPolicy, required,
  Socks5Config, offered_method, method_userpass, ver_socks5,
}
use thisconnect.Proxy.Socks5.Client.{Client}
use thisconnect.Proxy.Socks5.Handshake.{
  write_reply, Peer, has_capacity, greet, authenticate_if_required, negotiate, answer_dial,
  handshake,
}
use thisconnect.Proxy.Socks5.Handshake.Destination.{IsAdmissible, negotiate-IsAdmissible}
use thisconnect.Proxy.Socks5.Handshake.Sent.{
  After, prefixed, login, greet-After, authenticate-After,
}

-- What a client has sent that got through: the version and its methods, then the login with the
-- credentials that are required, then its request.
pub record IsAuthenticated (peer : Peer) (config : Socks5Config) (c : Credentials) (w : Client)
    : Type 0 where
  pub methods : Bytes
  pub request : Bytes
  pub sent : w.input ≡ (ver_socks5 ∷ prefixed methods) ++ (login c ++ request)
  pub offered : any (λ m. m == method_userpass) methods ≡ true
  pub capable : has_capacity peer w ≡ true

required-After :
    (peer : Peer) (a : AuthPolicy) (c : Credentials) (w v : Client)
    → a ≡ required c
    → authenticate_if_required peer a w ≡ (ok tt, v)
    → (has_capacity peer w ≡ true) × After (login c) w v
unfolding authenticate_if_required
required-After peer a c w v e h =
    authenticate-After peer c w v (subst (λ x. authenticate_if_required peer x w ≡ (ok tt, v)) e h)

offered_required :
    (config : Socks5Config) (a : AuthPolicy) (c : Credentials)
    → config.auth ≡ a
    → a ≡ required c
    → offered_method config ≡ method_userpass
offered_required config a c e e' = rw (e ∙ e') refl

negotiate-IsAuthenticated :
    (peer : Peer) (config : Socks5Config) (c : Credentials) (w v : Client) (t : Target)
    → config.auth ≡ required c
    → negotiate peer config w ≡ (ok t, v)
    → IsAuthenticated peer config c w
unfolding negotiate has_capacity
negotiate-IsAuthenticated peer config c w v t e h =
    let (_, u, k, h₁) = exec_parts (greet config) _ w v t h in
    let (_, u', k', h₂) = exec_parts (authenticate_if_required peer config.auth) _ u v t h₁ in
    let (methods, offered, greeted) = greet-After config w u k in
    let (capable, named) = required-After peer config.auth c u u' e k' in
    record {
      methods = methods;
      request = u'.input;
      sent =
          greeted.fronted ∙ ap (λ (x : Bytes). (ver_socks5 ∷ prefixed methods) ++ x) named.fronted;
      offered =
          subst (λ n. any (λ m. m == n) methods ≡ true)
            (offered_required config config.auth c refl e) offered;
      capable =
          subst (λ bs. has_capacity_at peer.address peer.asked_at bs ≡ true) greeted.kept capable;
    }

undialled :
    {S : Type 0} (e : DialError) (w v : Client) (result : Target × S)
    → (write_reply (dial_reply_code e) >> raise (dial e)) w ≡ (ok result, v)
    → ⊥
undialled e w v result h =
    let (_, u, _, k) = exec_parts (write_reply (dial_reply_code e)) _ w v result h in cc

answer_dial_ok :
    {S : Type 0} (t : Target) (r : Result DialError S) (w v : Client) (result : Target × S)
    → answer_dial t r w ≡ (ok result, v)
    → (result.0 ≡ t) × (r ≡ ok (result.1))
unfolding answer_dial
answer_dial_ok t (ok s) w v result h =
    let (_, u, _, k) = exec_parts (write_reply rep_success) _ w v result h in
    let same = ok-injective (ap (λ x. x.0) k) in (ap (λ x. x.0) (sym same), ap (λ x. ok (x.1)) same)
answer_dial_ok t (err e) w v result h = elim (undialled e w v result h) [ ]

-- Where a password is required, a client to whom a stream is opened had offered the password
-- method, had sent the credentials that are required, and had come from an address with capacity
-- left in the throttle; the stream is the dialer's answer for the returned destination, which is
-- never port 0, an IPv6 address in a tunnel without IPv6, or a name that is empty, longer than 255
-- bytes, not printable ASCII or itself an address.
pub handshake-IsAuthenticated :
    {S : Type 0} (peer : Peer) (config : Socks5Config) (c : Credentials)
    (dialer : Target → Result DialError S) (w v : Client) (t : Target) (s : S)
    → config.auth ≡ required c
    → handshake peer config dialer w ≡ (ok (t, s), v)
    → IsAuthenticated peer config c w × IsAdmissible config t × (dialer t ≡ ok s)
unfolding handshake
handshake-IsAuthenticated peer config c dialer w v t s e h =
    let (target, u, k, k₁) = exec_parts (negotiate peer config) _ w v (t, s) h in
    let (same, dialled) = answer_dial_ok target (dialer target) u v (t, s) k₁ in
    (
      negotiate-IsAuthenticated peer config c w u target e k,
      subst (IsAdmissible config) (sym same) (negotiate-IsAdmissible peer config w u target k),
      ap dialer same ∙ dialled,
    )

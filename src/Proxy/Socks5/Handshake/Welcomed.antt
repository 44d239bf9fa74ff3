-- ===== src/Proxy/Socks5/Handshake/Welcomed.antt =====
-- A well-formed client of proxy/src/socks5.rs gets through its handshake.
use thisconnect.Prelude.{
  ℕ, ◌-◌, ◌<◌, ◌≡◌, refl, ap, ap₂, ◌∙◌, true, false, [], ◌∷◌, ◌++◌, append_assoc, arith, leb, ◌==◌,
  if◌then◌else◌, le→leb, Result, ok, length, take, drop, any, length-append,
}
use thisconnect.Prelude.Text.{Bytes, text_eq_iff}
use thisconnect.Prelude.Exec.{continue, ◌>>=◌}
use thisconnect.Proxy.Socks5.{
  Socks5Error, Credentials, verify, Socks5Config, offered_method, ver_socks5, ver_userpass, auth_ok,
}
use thisconnect.Proxy.Socks5.Client.{Client, Talk, read_exact, write}
use thisconnect.Proxy.Socks5.Handshake.{
  Peer, byte_at, has_capacity, judge, answer_methods, read_length_prefixed, greet, authenticate,
}
use thisconnect.Proxy.Socks5.Handshake.Sent.{prefixed, login}

-- `w`, whose input has moved on to `rest`.
abbrev pub at_input : Bytes → Client → Client
at_input rest w = record w { input = rest }

-- `w`, to which `bytes` were written.
abbrev pub told : Bytes → Client → Client
told bytes w = record w { writes_left = w.writes_left - 1; output = w.output ++ bytes }

pub bind_ok :
    {A B : Type 0} (m : Talk A) (f : A → Talk B) (w u : Client) (a : A)
    → m w ≡ (ok a, u)
    → (m >>= f) w ≡ f a u
bind_ok {A = A} m f w u a h = ap (λ (r : Result Socks5Error A × Client). continue r.0 f r.1) h

take-append : (a rest : Bytes) → take (length a) (a ++ rest) ≡ a
take-append [] rest = refl
take-append (x ∷ a) rest = ap (◌∷◌ x) (take-append a rest)

drop-append : (a rest : Bytes) → drop (length a) (a ++ rest) ≡ rest
drop-append [] rest = refl
drop-append (x ∷ a) rest = drop-append a rest

enough : (a rest : Bytes) → leb (length a) (length (a ++ rest)) ≡ true
enough a rest = le→leb (length a) (length (a ++ rest)) (omega (arith, length-append {0} a rest))

pub read_exact-append :
    (a rest : Bytes) (w : Client)
    → read_exact (length a) (at_input (a ++ rest) w) ≡ (ok a, at_input rest w)
unfolding read_exact
read_exact-append a rest w =
    rw (enough a rest, if◌then◌else◌)
      (ap₂ (λ (x y : Bytes). (ok x, at_input y w)) (take-append a rest) (drop-append a rest))

-- A read of as many bytes as were sent, and what follows it.
pub read_then :
    {B : Type 0} (a rest : Bytes) (f : Bytes → Talk B) (w : Client)
    → (read_exact (length a) >>= f) (at_input (a ++ rest) w) ≡ f a (at_input rest w)
read_then a rest f w =
    bind_ok (read_exact (length a)) f (at_input (a ++ rest) w) (at_input rest w) a
      (read_exact-append a rest w)

read_length_prefixed-append :
    (a rest : Bytes) (w : Client)
    → read_length_prefixed (at_input (prefixed a ++ rest) w) ≡ (ok a, at_input rest w)
unfolding read_length_prefixed
read_length_prefixed-append a rest w =
    read_then (length a ∷ []) (a ++ rest) (λ len. read_exact (byte_at len 0)) w
    ∙ read_exact-append a rest w

pub read_prefixed_then :
    {B : Type 0} (a rest : Bytes) (f : Bytes → Talk B) (w : Client)
    → (read_length_prefixed >>= f) (at_input (prefixed a ++ rest) w) ≡ f a (at_input rest w)
read_prefixed_then a rest f w =
    bind_ok read_length_prefixed f (at_input (prefixed a ++ rest) w) (at_input rest w) a
      (read_length_prefixed-append a rest w)

pub write-told :
    (bytes : Bytes) (w : Client) → 0 < w.writes_left → write bytes w ≡ (ok tt, told bytes w)
unfolding write
write-told bytes w h = rw (some_left w.writes_left h, if◌then◌else◌) refl
  where
    some_left : (n : ℕ) → 0 < n → (n == 0) ≡ false
    some_left n k = ground arith

pub greet-told :
    (config : Socks5Config) (methods rest : Bytes) (w : Client)
    → any (λ m. m == offered_method config) methods ≡ true
    → 0 < w.writes_left
    → greet config (at_input ((ver_socks5 ∷ prefixed methods) ++ rest) w)
      ≡ (ok tt, told (ver_socks5 ∷ offered_method config ∷ []) (at_input rest w))
unfolding greet answer_methods
greet-told config methods rest w offered left =
    read_then (ver_socks5 ∷ length methods ∷ []) (methods ++ rest) _ w
    ∙ rw (some_method methods offered, if◌then◌else◌)
        (read_then methods rest (answer_methods (offered_method config)) w
          ∙ rw (offered, if◌then◌else◌)
              (write-told (ver_socks5 ∷ offered_method config ∷ []) (at_input rest w) left))
  where
    some_method :
        (ms : Bytes) → any (λ m. m == offered_method config) ms ≡ true → (length ms == 0) ≡ false
    some_method [] k = cc
    some_method (m ∷ ms) k = ground arith

verify_self : (c : Credentials) → verify c c.username c.password ≡ true
unfolding verify
verify_self c =
    rw ((text_eq_iff c.username c.username).1 refl, (text_eq_iff c.password c.password).1 refl) refl

pub authenticate-told :
    (peer : Peer) (c : Credentials) (rest : Bytes) (w : Client)
    → has_capacity peer w ≡ true
    → 0 < w.writes_left
    → authenticate peer c (at_input (login c ++ rest) w)
      ≡ (ok tt, told (ver_userpass ∷ auth_ok ∷ []) (at_input rest w))
unfolding authenticate judge has_capacity
authenticate-told peer c rest w capable left =
    read_then (ver_userpass ∷ []) ((prefixed c.username ++ prefixed c.password) ++ rest) _ w
    ∙ ap
        (λ (x : Bytes).
          (read_length_prefixed >>= λ u. read_length_prefixed >>= λ p. judge peer c u p)
            (at_input x w))
        (append_assoc (prefixed c.username) (prefixed c.password) rest)
    ∙ read_prefixed_then c.username (prefixed c.password ++ rest)
        (λ u. read_length_prefixed >>= λ p. judge peer c u p) w
    ∙ read_prefixed_then c.password rest (λ p. judge peer c c.username p) w
    ∙ rw (capable, if◌then◌else◌)
        (rw (verify_self c, if◌then◌else◌)
          (write-told (ver_userpass ∷ auth_ok ∷ []) (at_input rest w) left))

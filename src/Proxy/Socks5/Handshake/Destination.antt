-- ===== src/Proxy/Socks5/Handshake/Destination.antt =====
-- The destinations that the handshake of proxy/src/socks5.rs hands to the dialer.
use thisconnect.Prelude.{
  ℕ, ◌≤◌, ◌<◌, ◌≡◌, refl, ap, subst, ◌⊎◌, inl, inr, Bool, true, false, not, ◌&&◌, Option, none,
  some, [], ◌∷◌, arith, ltb, ◌==◌, if◌then◌else◌, Result, ok, err, ok-injective, guarded, length,
  is_empty, all, any,
}
use thisconnect.Prelude.Text.{Text, Bytes, codes}
use thisconnect.Prelude.Exec.{raise, exec_parts}
use thisconnect.Net.{IpAddr, v4, v6, is_ipv6, parse_ip}
use thisconnect.Proxy.Socks5.{
  Target, ip, domain, Socks5Error, reply_code, Socks5Config, max_domain_len, invalid_destination,
  atyp_v4, atyp_v6, atyp_domain, ver_socks5, cmd_connect,
}
use thisconnect.Proxy.Socks5.Client.{Client, Talk, read_exact}
use thisconnect.Proxy.Socks5.Handshake.{
  Peer, byte_at, is_printable, validate_hostname, host_target, domain_target, finish_ip_target,
  returning, read_port, read_length_prefixed, read_target, read_request, answer_error, write_reply,
  reply_with, greet, authenticate_if_required, negotiate,
}

-- A destination that may be dialled: never port 0, an IPv6 address only where the tunnel has
-- IPv6, and as a name only printable ASCII of 1 to 255 bytes that is no address.
abbrev pub IsAdmissible : Socks5Config → Target → Type 0
IsAdmissible config (ip a port) = (0 < port) × ((is_ipv6 a && not config.tunnel_has_v6) ≡ false)
IsAdmissible config (domain host port) =
    (0 < port)
    × (parse_ip host ≡ none)
    × (0 < length host)
    × (length host ≤ max_domain_len)
    × (all is_printable host ≡ true)

-- One guard of the two parts of a talk.
pub talk_parts :
    {A : Type 0} (c : Bool) (x y : Talk A) (w : Client) (r : Result Socks5Error A × Client)
    → (if c then x else y) w ≡ r
    → ((c ≡ true) × (x w ≡ r)) ⊎ ((c ≡ false) × (y w ≡ r))
talk_parts true x y w r h = inl (refl, h)
talk_parts false x y w r h = inr (refl, h)

pub not_raised :
    {A : Type 0} (c : Bool) (e : Socks5Error) (y : Talk A) (w v : Client) (a : A)
    → (if c then raise e else y) w ≡ (ok a, v)
    → (c ≡ false) × (y w ≡ (ok a, v))
not_raised true e y w v a h = cc
not_raised false e y w v a h = (refl, h)

not_zero : (n : ℕ) → (n == 0) ≡ false → 0 < n
not_zero n h = ground arith

finish_ip_target-IsAdmissible :
    (a : IpAddr) (port : ℕ) (config : Socks5Config) (t : Target)
    → finish_ip_target a port config ≡ ok t
    → IsAdmissible config t
unfolding finish_ip_target
finish_ip_target-IsAdmissible a port config t h =
    let (v6_fits, h₁) = guarded (is_ipv6 a && not config.tunnel_has_v6) _ _ t h in
    let (some_port, h₂) = guarded (port == 0) _ _ t h₁ in
    subst (IsAdmissible config) (ok-injective h₂) (not_zero port some_port, v6_fits)

none_not : (f : ℕ → Bool) (t : Bytes) → any (λ b. not (f b)) t ≡ false → all f t ≡ true
none_not f [] h = refl
none_not f (c ∷ t) h = ground (arith, none_not f t)

host_target-IsAdmissible :
    (m : Option IpAddr) (host : Text) (port : ℕ) (config : Socks5Config) (t : Target)
    → parse_ip host ≡ m
    → 0 < length host
    → length host ≤ max_domain_len
    → all is_printable host ≡ true
    → ◌≡◌ {A = Result Socks5Error Target}
        (elim m [
          | some address ↦ finish_ip_target address port config
          | none ↦
              if port == 0
              then err (invalid_destination (codes "port 0"))
              else ok (domain host port)
        ])
        (ok t)
    → IsAdmissible config t
host_target-IsAdmissible (some a) host port config t e some_byte short printable h =
    finish_ip_target-IsAdmissible a port config t h
host_target-IsAdmissible none host port config t e some_byte short printable h =
    let (some_port, h₁) = guarded (port == 0) _ _ t h in
    subst (IsAdmissible config) (ok-injective h₁)
      (not_zero port some_port, e, some_byte, short, printable)

not_empty : (t : Text) → is_empty t ≡ false → 0 < length t
not_empty [] h = cc
not_empty (c ∷ t) h = omega arith

validate_hostname_lem :
    (raw host : Bytes)
    → validate_hostname raw ≡ ok host
    → (0 < length host) × (length host ≤ max_domain_len) × (all is_printable host ≡ true)
unfolding validate_hostname
validate_hostname_lem raw host h =
    let (some_byte, h₁) = guarded (is_empty raw) _ _ host h in
    let (short, h₂) = guarded (ltb max_domain_len (length raw)) _ _ host h₁ in
    let (no_nul, h₃) = guarded (any (λ b. b == 0) raw) _ _ host h₂ in
    let (printable, h₄) = guarded (any (λ b. not (is_printable b)) raw) _ _ host h₃ in
    subst (λ t. (0 < length t) × (length t ≤ max_domain_len) × (all is_printable t ≡ true))
      (ok-injective h₄)
      (not_empty raw some_byte, at_most (length raw) short, none_not is_printable raw printable)
  where
    at_most : (n : ℕ) → ltb max_domain_len n ≡ false → n ≤ max_domain_len
    at_most n k = ground arith

domain_target-IsAdmissible :
    (raw : Bytes) (port : ℕ) (config : Socks5Config) (t : Target)
    → domain_target raw port config ≡ ok t
    → IsAdmissible config t
unfolding domain_target host_target
domain_target-IsAdmissible raw port config t h = go (validate_hostname raw) refl h
  where
    go :
        (m : Result Socks5Error Text)
        → validate_hostname raw ≡ m
        → ◌≡◌ {A = Result Socks5Error Target}
            (elim m [ ok host ↦ host_target host port config | err e ↦ err e ])
            (ok t)
        → IsAdmissible config t
    go (ok host) e k =
        let (some_byte, short, printable) = validate_hostname_lem raw host e in
        host_target-IsAdmissible (parse_ip host) host port config t refl some_byte short printable k
    go (err why) e k = cc

returned :
    {A : Type 0} (r : Result Socks5Error A) (w v : Client) (a : A)
    → returning r w ≡ (ok a, v)
    → r ≡ ok a
returned r w v a h = ap (λ x. x.0) h

read_target-IsAdmissible :
    (atyp : ℕ) (config : Socks5Config) (w v : Client) (t : Target)
    → read_target atyp config w ≡ (ok t, v)
    → IsAdmissible config t
unfolding read_target
read_target-IsAdmissible atyp config w v t h = elim (talk_parts (atyp == atyp_v4) _ _ w _ h) [
  | inl (_, k) ↦
      let (octets, u, _, k₁) = exec_parts (read_exact 4) _ w v t k in
      let (port, u', _, k₂) = exec_parts read_port _ u v t k₁ in
      finish_ip_target-IsAdmissible (v4 octets) port config t (returned _ u' v t k₂)
  | inr (_, h₁) ↦ elim (talk_parts (atyp == atyp_v6) _ _ w _ h₁) [
    | inl (_, k) ↦
        let (octets, u, _, k₁) = exec_parts (read_exact 16) _ w v t k in
        let (port, u', _, k₂) = exec_parts read_port _ u v t k₁ in
        finish_ip_target-IsAdmissible (v6 octets) port config t (returned _ u' v t k₂)
    | inr (_, h₂) ↦ elim (talk_parts (atyp == atyp_domain) _ _ w _ h₂) [
      | inl (_, k) ↦
          let (raw, u, _, k₁) = exec_parts read_length_prefixed _ w v t k in
          let (port, u', _, k₂) = exec_parts read_port _ u v t k₁ in
          domain_target-IsAdmissible raw port config t (returned _ u' v t k₂)
      | inr (_, h₃) ↦ cc
    ]
  ]
]

read_request-IsAdmissible :
    (config : Socks5Config) (w v : Client) (t : Target)
    → read_request config w ≡ (ok t, v)
    → IsAdmissible config t
unfolding read_request
read_request-IsAdmissible config w v t h =
    let (head, u, _, k) = exec_parts (read_exact 4) _ w v t h in
    let (_, k₁) = not_raised (not (byte_at head 0 == ver_socks5)) _ _ u v t k in
    let (_, k₂) = not_raised (not (byte_at head 2 == 0)) _ _ u v t k₁ in
    let (target, u', taken, k₃) = exec_parts (read_target (byte_at head 3) config) _ u v t k₂ in
    let (_, k₄) = not_raised (not (byte_at head 1 == cmd_connect)) _ _ u' v t k₃ in
    subst (IsAdmissible config) (ok-injective (ap (λ x. x.0) k₄))
      (read_target-IsAdmissible (byte_at head 3) config u u' target taken)

refused :
    (e : Socks5Error) (m : Option ℕ) (w v : Client) (t : Target) → reply_with e m w ≡ (ok t, v) → ⊥
unfolding reply_with
refused e none w v t h = cc
refused e (some rep) w v t h = let (_, u, _, k) = exec_parts (write_reply rep) _ w v t h in cc

answered :
    (r : Result Socks5Error Target) (w v : Client) (t : Target)
    → answer_error r w ≡ (ok t, v)
    → r ≡ ok t
unfolding answer_error
answered (ok target) w v t h = ap (λ x. x.0) h
answered (err e) w v t h = elim (refused e (reply_code e) w v t h) [ ]

pub negotiate-IsAdmissible :
    (peer : Peer) (config : Socks5Config) (w v : Client) (t : Target)
    → negotiate peer config w ≡ (ok t, v)
    → IsAdmissible config t
unfolding negotiate
negotiate-IsAdmissible peer config w v t h =
    let (_, u, _, k) = exec_parts (greet config) _ w v t h in
    let (_, u', _, k₁) = exec_parts (authenticate_if_required peer config.auth) _ u v t k in
    read_request-IsAdmissible config u' _ t
      (ap (λ r. (r, (read_request config u').1)) (answered (read_request config u').0 _ v t k₁))

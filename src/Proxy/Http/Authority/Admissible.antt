-- ===== src/Proxy/Http/Authority/Admissible.antt =====
-- The destinations that proxy/src/http.rs takes from an authority.
use thisconnect.Prelude.{
  guarded, ℕ, ◌≤◌, ◌<◌, ◌≡◌, refl, sym, ap, subst, ◌∙◌, false, not, ◌&&◌, ◌||◌, Option, none, some,
  ◌∷◌, ◌++◌, arith, ltb, ◌==◌, ltb→le, Result, ok, err, ok-injective, is_empty, all, any, ok_parts,
}
use thisconnect.Prelude.Text.{Text, Bytes, codes, strip_prefix, is_ascii_digit, byte_len}
use thisconnect.Prelude.Split.{split_once, rsplit_once, parse_unsigned, parse_unsigned-le, u16_max}
use thisconnect.Prelude.Splits.{split_once-splits, rsplit_once-splits, strip_prefix-splits}
use thisconnect.Net.{IpAddr, v6, is_ipv6, parse_ip, parse_v6}
use thisconnect.Proxy.Socks5.{Target, ip, domain}
use thisconnect.Proxy.Socks5.Handshake.{is_printable}
use thisconnect.Proxy.Http.{HttpError, invalid_destination, HttpConfig, max_host_len}
use thisconnect.Proxy.Http.Authority.{
  ip_target, validate_host, port_in_range, parse_port, ok_or, bracketed_target, classify_host,
  host_target, target_from_authority,
}

-- A destination that may be dialled: never port 0, an IPv6 address only where the tunnel has
-- IPv6, and as a name only printable ASCII of 1 to 255 bytes, without a colon, that is no address.
abbrev pub IsAdmissible : HttpConfig → Target → Type 0
IsAdmissible config (ip a port) =
    (0 < port) × (port ≤ u16_max) × ((is_ipv6 a && not config.tunnel_has_v6) ≡ false)
IsAdmissible config (domain host port) =
    (0 < port)
    × (port ≤ u16_max)
    × (is_empty host ≡ false)
    × (byte_len host ≤ max_host_len)
    × (any (λ b. not (is_printable b)) host ≡ false)
    × (any (λ c. c == b':') host ≡ false)

-- The destination that an authority spells: a bracketed IPv6 address, an address, or a name.
pub data Names (authority : Text) : Target → Type 0 where
  bracketed :
      (inside digits : Text) (o : Bytes) (port : ℕ)
      → authority ≡ b'[' ∷ (inside ++ (b']' ∷ b':' ∷ digits))
      → parse_v6 inside ≡ some o
      → parse_port digits ≡ ok port
      → Names authority (ip (v6 o) port)
  addressed :
      (host digits : Text) (a : IpAddr) (port : ℕ)
      → authority ≡ host ++ (b':' ∷ digits)
      → parse_ip host ≡ some a
      → parse_port digits ≡ ok port
      → Names authority (ip a port)
  named :
      (host digits : Text) (port : ℕ)
      → authority ≡ host ++ (b':' ∷ digits)
      → parse_ip host ≡ none
      → parse_port digits ≡ ok port
      → Names authority (domain host port)

ok_or-some : {A : Type 0} (o : Option A) (e : HttpError) (a : A) → ok_or o e ≡ ok a → o ≡ some a
ok_or-some none e a h = cc
ok_or-some (some b) e a h = ap some (ok-injective h)

ip_target-IsAdmissible :
    (a : IpAddr) (port : ℕ) (config : HttpConfig) (t : Target)
    → 0 < port
    → port ≤ u16_max
    → ip_target a port config ≡ ok t
    → (t ≡ ip a port) × IsAdmissible config t
unfolding ip_target
ip_target-IsAdmissible a port config t some_port fits h =
    let (reachable, h₁) = guarded (is_ipv6 a && not config.tunnel_has_v6) _ _ t h in
    let same = ok-injective h₁ in
    (sym same, subst (IsAdmissible config) same (some_port, fits, reachable))

in_range : (o : Option ℕ) (port : ℕ) → port_in_range o ≡ ok port → (o ≡ some port) × (0 < port)
in_range none port h = cc
in_range (some n) port h =
    let (nonzero, h₁) = guarded (n == 0) _ _ port h in
    let same = ok-injective h₁ in (ap some same, ground (arith, nonzero, same))

-- A port is between 1 and 65535.
pub parse_port-le :
    (raw : Text) (port : ℕ) → parse_port raw ≡ ok port → (0 < port) × (port ≤ u16_max)
unfolding parse_port
parse_port-le raw port h =
    let (_, h₁) =
      guarded (is_empty raw || ltb 5 (byte_len raw) || not (all is_ascii_digit raw)) _ _ port h in
    let (read, nonzero) = in_range (parse_unsigned u16_max raw) port h₁ in
    (nonzero, parse_unsigned-le u16_max raw port read)

bracketed_target-Names :
    (rest : Text) (config : HttpConfig) (t : Target)
    → bracketed_target rest config ≡ ok t
    → Names (b'[' ∷ rest) t × IsAdmissible config t
unfolding bracketed_target
bracketed_target-Names rest config t h =
    let (parts, h₁, k₁) = ok_parts _ (ok_or (split_once b']' rest) _) h in
    let (digits, h₂, k₂) = ok_parts _ (ok_or (strip_prefix (codes ":") (parts.1)) _) h₁ in
    let (o, h₃, k₃) = ok_parts _ (ok_or (parse_v6 (parts.0)) _) h₂ in
    let (port, h₄, k₄) = ok_parts _ (parse_port digits) h₃ in
    let (some_port, fits) = parse_port-le digits port k₄ in
    let (same, admissible) = ip_target-IsAdmissible (v6 o) port config t some_port fits h₄ in
    let cut = split_once-splits b']' rest (parts.0) (parts.1) (ok_or-some _ _ _ k₁) in
    let colon = strip_prefix-splits (codes ":") (parts.1) digits (ok_or-some _ _ _ k₂) in
    (
      subst (Names (b'[' ∷ rest)) (sym same) (
          bracketed (parts.0) digits o port
            (ap (◌∷◌ b'[') (cut ∙ ap (λ (x : Text). parts.0 ++ (b']' ∷ x)) colon))
            (ok_or-some _ _ _ k₃) k₄),
      admissible,
    )

classify_host-Names :
    (m : Option IpAddr) (host digits : Text) (port : ℕ) (config : HttpConfig) (t : Target)
    → parse_ip host ≡ m
    → parse_port digits ≡ ok port
    → any (λ c. c == b':') host ≡ false
    → (u : Unit) → validate_host host ≡ ok u
    → classify_host m host port config ≡ ok t
    → Names (host ++ (b':' ∷ digits)) t × IsAdmissible config t
unfolding validate_host classify_host
classify_host-Names (some a) host digits port config t e parsed plain u valid h =
    let (some_port, fits) = parse_port-le digits port parsed in
    let (same, admissible) = ip_target-IsAdmissible a port config t some_port fits h in
    (
      subst (Names (host ++ (b':' ∷ digits))) (sym same)
          (addressed host digits a port refl e parsed),
      admissible,
    )
classify_host-Names none host digits port config t e parsed plain u valid h =
    let (some_port, fits) = parse_port-le digits port parsed in
    let (some_host, v₁) = guarded (is_empty host) _ _ u valid in
    let (short, v₂) = guarded (ltb max_host_len (byte_len host)) _ _ u v₁ in
    let (printable, _) = guarded (any (λ b. not (is_printable b)) host) _ _ u v₂ in
    subst (λ x. Names (host ++ (b':' ∷ digits)) x × IsAdmissible config x) (ok-injective h)
      (
        named host digits port refl e parsed,
        (some_port, fits, some_host, ltb→le max_host_len (byte_len host) short, printable, plain),
      )

host_target-Names :
    (host digits : Text) (config : HttpConfig) (t : Target)
    → host_target host digits config ≡ ok t
    → Names (host ++ (b':' ∷ digits)) t × IsAdmissible config t
unfolding host_target
host_target-Names host digits config t h =
    let (plain, h₁) = guarded (any (λ c. c == b':') host) _ _ t h in
    let (port, h₂, parsed) = ok_parts _ (parse_port digits) h₁ in
    let (u, h₃, valid) = ok_parts _ (validate_host host) h₂ in
    classify_host-Names (parse_ip host) host digits port config t refl parsed plain u valid h₃

unbracketed_target-Names :
    (o : Option (Text × Text)) (authority : Text) (config : HttpConfig) (t : Target)
    → rsplit_once b':' authority ≡ o
    → ◌≡◌ {A = Result HttpError Target}
        (elim o [
          | none ↦ err (invalid_destination (codes "missing port"))
          | some (host, port) ↦ host_target host port config
        ])
        (ok t)
    → Names authority t × IsAdmissible config t
unbracketed_target-Names none authority config t e h = cc
unbracketed_target-Names (some (host, digits)) authority config t e h =
    subst (λ s. Names s t × IsAdmissible config t)
      (sym (rsplit_once-splits b':' authority host digits e))
      (host_target-Names host digits config t h)

target-Names :
    (o : Option Text) (authority : Text) (config : HttpConfig) (t : Target)
    → strip_prefix (codes "[") authority ≡ o
    → ◌≡◌ {A = Result HttpError Target}
        (elim o [
          | some rest ↦ bracketed_target rest config
          | none ↦ elim (rsplit_once b':' authority) [
            | none ↦ err (invalid_destination (codes "missing port"))
            | some (host, port) ↦ host_target host port config
          ]
        ])
        (ok t)
    → Names authority t × IsAdmissible config t
target-Names none authority config t e h =
    unbracketed_target-Names (rsplit_once b':' authority) authority config t refl h
target-Names (some rest) authority config t e h =
    subst (λ s. Names s t × IsAdmissible config t)
      (sym (strip_prefix-splits (codes "[") authority rest e))
      (bracketed_target-Names rest config t h)

-- The destination that is taken from an authority is the one that it spells, unchanged: a
-- bracketed IPv6 address, an address, or a name that is no address, with a port between 1 and
-- 65535. An IPv6 address is taken only where the tunnel has IPv6, and a name has 1 to 255 bytes of
-- printable ASCII and no colon.
pub target_from_authority-Names :
    (authority : Text) (config : HttpConfig) (t : Target)
    → target_from_authority authority config ≡ ok t
    → Names authority t × IsAdmissible config t
unfolding target_from_authority
target_from_authority-Names authority config t h =
    target-Names (strip_prefix (codes "[") authority) authority config t refl h

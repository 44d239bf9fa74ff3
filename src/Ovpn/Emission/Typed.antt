-- ===== src/Ovpn/Emission/Typed.antt =====
-- The handlers of shared/src/ovpn/directive.rs that choose or build their arguments give sound
-- verdicts.
use thisconnect.Prelude.{
  ℕ, ◌≡◌, refl, subst, Bool, true, false, Option, none, some, List, ◌==◌, if◌then◌else◌, ok, err,
  ok-injective, get_elem?, All-append, ok_parts,
}
use thisconnect.Prelude.Text.{Text, codes, is_ascii_alphanumeric}
use thisconnect.Net.{IpAddr, parse_ip}
use thisconnect.Ovpn.Types.{
  Remote, remote_directive, StaticChallenge, challenge_directive, RemoteHost, name, ip, show_host,
  show_proto, proto_arg, flags_arg, TransportProto, udp, udp4, udp6, tcp, tcp4, tcp6,
}
use thisconnect.Ovpn.Args.{
  Ctx, Checked, arg_at, to_ascii_uppercase, optional, chosen, port_or_default, expect_arity,
  expect_one_of, parse_u32_in, parse_port, parse_transport, is_rfc1123_hostname, parse_host, protos,
  proxy_methods, proxy_auths, parse_remote, parse_proto, parse_dev, parse_peer_fingerprint,
  parse_static_challenge, parse_proxy,
}
use thisconnect.Ovpn.Error.{ValidationError}
use thisconnect.Ovpn.Emission.{AllAllowed}
use thisconnect.Ovpn.Emission.Allowed.{
  is_allowed, show-is_allowed, show_host_ip-is_allowed, show_host_name-is_allowed,
  get_elem?-is_allowed, arg_at-is_allowed, to_ascii_uppercase-is_allowed,
}

-- Each checked text is allowed.
pub parse_proto-is_allowed :
    (ctx : Ctx) (args : List Text) (p : Text)
    → AllAllowed args
    → parse_proto ctx args ≡ ok p
    → is_allowed p ≡ true
unfolding parse_proto
parse_proto-is_allowed ctx args p a h =
    let (_, h₁, _) = ok_parts _ (expect_arity ctx args 1 1) h in
    let (_, h₂, _) = ok_parts _ (expect_one_of ctx (arg_at args 0) protos) h₁ in
    subst (λ t. is_allowed t ≡ true) (ok-injective h₂) (arg_at-is_allowed args 0 a)

if_ok :
    (b : Bool) (x w : Text) (e : ValidationError)
    → ◌≡◌ {A = Checked Text} (if b then ok x else err e) (ok w)
    → x ≡ w
if_ok true x w e h = ok-injective h
if_ok false x w e h = cc

pub parse_dev-is_allowed :
    (ctx : Ctx) (args : List Text) (p : Text)
    → AllAllowed args
    → parse_dev ctx args ≡ ok p
    → is_allowed p ≡ true
unfolding parse_dev
parse_dev-is_allowed ctx args p a h =
    let (_, h₁, _) = ok_parts _ (expect_arity ctx args 1 1) h in
    subst (λ t. is_allowed t ≡ true) (if_ok _ (arg_at args 0) p _ h₁) (arg_at-is_allowed args 0 a)

pub parse_peer_fingerprint-is_allowed :
    (ctx : Ctx) (args : List Text) (p : Text)
    → AllAllowed args
    → parse_peer_fingerprint ctx args ≡ ok p
    → is_allowed p ≡ true
unfolding parse_peer_fingerprint
parse_peer_fingerprint-is_allowed ctx args p a h =
    let (_, h₁, _) = ok_parts _ (expect_arity ctx args 1 1) h in
    subst (λ t. is_allowed t ≡ true) (if_ok _ (to_ascii_uppercase (arg_at args 0)) p _ h₁)
      (to_ascii_uppercase-is_allowed (arg_at args 0) (arg_at-is_allowed args 0 a))

host_of-is_allowed :
    (m : Option IpAddr) (b : Bool) (arg : Text) (r : RemoteHost) (e : ValidationError)
    → is_allowed arg ≡ true
    → ◌≡◌ {A = Checked RemoteHost}
        (elim m [ some a ↦ ok (ip a) | none ↦ if b then ok (name arg) else err e ])
        (ok r)
    → is_allowed (show_host r) ≡ true
host_of-is_allowed (some o) b arg r e a h =
    subst (λ q. is_allowed (show_host q) ≡ true) (ok-injective h) (show_host_ip-is_allowed o)
host_of-is_allowed none true arg r e a h =
    subst (λ q. is_allowed (show_host q) ≡ true) (ok-injective h) (show_host_name-is_allowed arg a)
host_of-is_allowed none false arg r e a h = cc

-- A parsed host is written as it was given, or as an address.
parse_host-is_allowed :
    (ctx : Ctx) (arg : Text) (r : RemoteHost)
    → is_allowed arg ≡ true
    → parse_host ctx arg ≡ ok r
    → is_allowed (show_host r) ≡ true
unfolding parse_host
parse_host-is_allowed ctx arg r a h =
    host_of-is_allowed (parse_ip arg) (is_rfc1123_hostname arg) arg r _ a h

show_proto-is_allowed : (p : TransportProto) → is_allowed (show_proto p) ≡ true
unfolding show_proto is_ascii_alphanumeric
show_proto-is_allowed udp = refl
show_proto-is_allowed udp4 = refl
show_proto-is_allowed udp6 = refl
show_proto-is_allowed tcp = refl
show_proto-is_allowed tcp4 = refl
show_proto-is_allowed tcp6 = refl

proto_arg-AllAllowed : (p : Option TransportProto) → AllAllowed (proto_arg p)
proto_arg-AllAllowed none = tt
proto_arg-AllAllowed (some p) = (show_proto-is_allowed p, tt)

pub parse_remote-AllAllowed :
    (ctx : Ctx) (args : List Text) (r : Remote)
    → AllAllowed args
    → parse_remote ctx args ≡ ok r
    → AllAllowed ((remote_directive r).args)
unfolding parse_remote remote_directive
parse_remote-AllAllowed ctx args r a h =
    let (_, h₁, _) = ok_parts _ (expect_arity ctx args 1 3) h in
    let (host, h₂, k) = ok_parts _ (parse_host ctx (arg_at args 0)) h₁ in
    let (port, h₃, _) = ok_parts _ (port_or_default ctx (get_elem? args 1)) h₂ in
    let (proto, h₄, _) = ok_parts _ (optional (parse_transport ctx) (get_elem? args 2)) h₃ in
    subst (λ s. AllAllowed ((remote_directive s).args)) (ok-injective h₄)
      (
        parse_host-is_allowed ctx (arg_at args 0) host (arg_at-is_allowed args 0 a) k,
        (show-is_allowed port, proto_arg-AllAllowed proto),
      )

flags_arg-AllAllowed : (f : Option ℕ) → AllAllowed (flags_arg f)
flags_arg-AllAllowed none = tt
flags_arg-AllAllowed (some n) = (show-is_allowed n, tt)

echo-is_allowed : (b : Bool) → is_allowed (if b then codes "1" else codes "0") ≡ true
unfolding is_ascii_alphanumeric
echo-is_allowed true = refl
echo-is_allowed false = refl

pub parse_static_challenge-AllAllowed :
    (ctx : Ctx) (args : List Text) (c : StaticChallenge)
    → AllAllowed args
    → parse_static_challenge ctx args ≡ ok c
    → AllAllowed ((challenge_directive c).args)
unfolding parse_static_challenge challenge_directive
parse_static_challenge-AllAllowed ctx args c a h =
    let (_, h₁, _) = ok_parts _ (expect_arity ctx args 2 3) h in
    let (echo, h₂, _) = ok_parts _ (parse_u32_in ctx (arg_at args 1) 0 1) h₁ in
    let (format, h₃, _) =
      ok_parts _ (optional (λ f. parse_u32_in ctx f 0 255) (get_elem? args 2)) h₂ in
    subst (λ s. AllAllowed ((challenge_directive s).args)) (ok-injective h₃)
      (arg_at-is_allowed args 0 a, (echo-is_allowed (echo == 1), flags_arg-AllAllowed format))

chosen_of-AllAllowed :
    (ctx : Ctx) (choice : List Text) (m : Option Text) (r : List Text)
    → ((t : Text) → m ≡ some t → is_allowed t ≡ true)
    → chosen ctx choice m ≡ ok r
    → AllAllowed r
chosen_of-AllAllowed ctx choice none r a h = subst AllAllowed (ok-injective h) tt
chosen_of-AllAllowed ctx choice (some t) r a h =
    let (_, h₁, _) = ok_parts _ (expect_one_of ctx t choice) h in
    subst AllAllowed (ok-injective h₁) (a t refl, tt)

chosen-AllAllowed :
    (ctx : Ctx) (choice : List Text) (args : List Text) (i : ℕ) (r : List Text)
    → AllAllowed args
    → chosen ctx choice (get_elem? args i) ≡ ok r
    → AllAllowed r
chosen-AllAllowed ctx choice args i r a h =
    chosen_of-AllAllowed ctx choice (get_elem? args i) r (λ t. get_elem?-is_allowed args i t a) h

pub parse_proxy-AllAllowed :
    (ctx : Ctx) (args r : List Text) → AllAllowed args → parse_proxy ctx args ≡ ok r → AllAllowed r
unfolding parse_proxy
parse_proxy-AllAllowed ctx args r a h =
    let (_, h₁, _) = ok_parts _ (expect_arity ctx args 2 4) h in
    let (host, h₂, k) = ok_parts _ (parse_host ctx (arg_at args 0)) h₁ in
    let (port, h₃, _) = ok_parts _ (parse_port ctx (arg_at args 1)) h₂ in
    let (third, h₄, k₃) = ok_parts _ (chosen ctx proxy_methods (get_elem? args 2)) h₃ in
    let (fourth, h₅, k₄) = ok_parts _ (chosen ctx proxy_auths (get_elem? args 3)) h₄ in
    subst AllAllowed (ok-injective h₅) (
      parse_host-is_allowed ctx (arg_at args 0) host (arg_at-is_allowed args 0 a) k,
      (
        show-is_allowed port,
        All-append _ third fourth (chosen-AllAllowed ctx proxy_methods args 2 third a k₃)
            (chosen-AllAllowed ctx proxy_auths args 3 fourth a k₄),
      ),
    )

-- ===== src/Ovpn/Directive/Handlers.antt =====
-- The handlers of shared/src/ovpn/directive.rs: each takes the directives of one kind.
use thisconnect.Prelude.{
  ℕ, not, Option, none, some, List, [], ◌∷◌, ltb, if◌then◌else◌, ok, err, get_elem?, is_empty,
  ◌>>=◌, ◌>>◌,
}
use thisconnect.Prelude.Text.{Text, codes, text_eq, one_of}
use thisconnect.Net.{show}
use thisconnect.Ovpn.Types.{
  EmittedDirective, Remote, RouteDirective, RedirectGateway, DhcpOption, StaticChallenge,
}
use thisconnect.Ovpn.Args.{
  Ctx, Checked, invalid, arg_at, expect_no_args, expect_arity, expect_one_of, parse_u32_in,
  parse_proto, parse_dev, parse_peer_fingerprint, parse_remote, parse_route, parse_dhcp_option,
  parse_static_challenge, parse_proxy,
}
use thisconnect.Ovpn.Directive.Tables.{flags, max_seconds, ranges, choices, token_lists}

pub data Classified : Type 0 where
  emit : EmittedDirective → Classified
  remote : Remote → Classified
  route : RouteDirective → Classified
  redirect_gateway : RedirectGateway → Classified
  dhcp_option : DhcpOption → Classified
  auth_user_pass ignored : Classified
  static_challenge : StaticChallenge → Classified

abbrev pub Outcome : Type 0
Outcome = Option (Checked Classified)

abbrev pub emitted : Text → List Text → Classified
emitted name args = emit (record { name = name; args = args })

-- an `Outcome` from a check: its error, or the directive
abbrev pub emit_if : Checked Unit → Text → List Text → Outcome
emit_if check name args = some (check >> ok (emitted name args))

unfoldable pub as_flag : Ctx → Text → List Text → Outcome
unfolding one_of text_eq expect_no_args
as_flag ctx name args =
    if text_eq name (codes "auth-user-pass")
    then (if not (is_empty args) then some (err (invalid ctx)) else some (ok auth_user_pass))
    else if not (one_of name flags)
    then none
    else emit_if (expect_no_args ctx args) name []

-- `RANGES.iter().find(..)`
unfoldable pub find_range : Text → List (Text × ℕ × ℕ) → Option (ℕ × ℕ)
unfolding text_eq
find_range name [] = none
find_range name ((n, lo, hi) ∷ rest) =
    let later = find_range name rest in if text_eq n name then some (lo, hi) else later

abbrev discard : {A : Type 0} → Checked A → Checked Unit
discard (ok a) = ok tt
discard (err e) = err e

abbrev in_range : Ctx → ℕ → ℕ → Text → Checked Unit
in_range ctx lo hi arg = discard (parse_u32_in ctx arg lo hi)

-- the loop over the arguments of `keepalive` and `connect-retry`
unfoldable pub all_in_range : Ctx → ℕ → ℕ → List Text → Checked Unit
all_in_range ctx lo hi [] = ok tt
all_in_range ctx lo hi (arg ∷ rest) = in_range ctx lo hi arg >> all_in_range ctx lo hi rest

abbrev pub infinite_or_in : Ctx → ℕ → ℕ → Text → Checked Unit
infinite_or_in ctx lo hi arg =
    if text_eq arg (codes "infinite") then ok tt else in_range ctx lo hi arg

abbrev pub optional_in : Ctx → ℕ → ℕ → Option Text → Checked Unit
optional_in ctx lo hi none = ok tt
optional_in ctx lo hi (some arg) = in_range ctx lo hi arg

unfoldable pub as_verb : Ctx → Text → List Text → Checked Classified
unfolding expect_arity parse_u32_in show arg_at
as_verb ctx name args = do
  expect_arity ctx args 1 1
  raw ← parse_u32_in ctx (arg_at args 0) 0 11
  ok (emitted name (show (if ltb raw 4 then raw else 4) ∷ []))

unfoldable pub as_number : Ctx → Text → List Text → Outcome
unfolding as_verb all_in_range find_range expect_arity parse_u32_in text_eq one_of arg_at
as_number ctx name args =
    if text_eq name (codes "verb")
    then some (as_verb ctx name args)
    else if one_of name (codes "keepalive" ∷ codes "connect-retry" ∷ [])
    then emit_if (expect_arity ctx args 1 2 >> all_in_range ctx 0 max_seconds args) name args
    else if text_eq name (codes "resolv-retry")
    then emit_if (expect_arity ctx args 1 1 >> infinite_or_in ctx 0 max_seconds (arg_at args 0))
        name args
    else if text_eq name (codes "explicit-exit-notify")
    then emit_if (expect_arity ctx args 0 1 >> optional_in ctx 0 2 (get_elem? args 0)) name args
    else elim (find_range name ranges) [
      | none ↦ none
      | some (lo, hi) ↦
          emit_if (expect_arity ctx args 1 2 >> infinite_or_in ctx lo hi (arg_at args 0)) name args
    ]

-- `CHOICES.iter().find(..)`
unfoldable pub find_choice : Text → List (Text × List Text) → Option (List Text)
unfolding text_eq
find_choice name [] = none
find_choice name ((n, allowed) ∷ rest) =
    let later = find_choice name rest in if text_eq n name then some allowed else later

abbrev pub optional_one_of : Ctx → List Text → Option Text → Checked Unit
optional_one_of ctx allowed none = ok tt
optional_one_of ctx allowed (some arg) = expect_one_of ctx arg allowed

-- `.map(|value| Classified::Emit(..))`
abbrev pub emit_one : Text → Checked Text → Checked Classified
emit_one name checked = checked >>= λ value. ok (emitted name (value ∷ []))

unfoldable pub as_keyword : Ctx → Text → List Text → Outcome
unfolding find_choice expect_arity expect_one_of parse_proto parse_dev text_eq arg_at
as_keyword ctx name args =
    if text_eq name (codes "dns-updown")
    then some (ok ignored)
    else if text_eq name (codes "setenv")
    then some (ok ignored)
    else if text_eq name (codes "proto")
    then some (emit_one name (parse_proto ctx args))
    else if text_eq name (codes "dev")
    then some (emit_one name (parse_dev ctx args))
    else elim (find_choice name choices) [
      | none ↦ none
      | some allowed ↦
          let most : ℕ = if text_eq name (codes "tls-version-min") then 2 else 1 in
          emit_if
            (expect_arity ctx args 1 most
              >> (expect_one_of ctx (arg_at args 0) allowed
                  >> optional_one_of ctx (codes "or-highest" ∷ []) (get_elem? args 1)))
            name args
    ]

abbrev pub x509_kinds : List Text
x509_kinds = codes "name" ∷ codes "name-prefix" ∷ codes "subject" ∷ []

unfoldable pub as_crypto : Ctx → Text → List Text → Outcome
unfolding expect_arity expect_one_of parse_peer_fingerprint one_of text_eq
as_crypto ctx name args =
    if text_eq name (codes "peer-fingerprint")
    then some (emit_one name (parse_peer_fingerprint ctx args))
    else if text_eq name (codes "verify-x509-name")
    then emit_if (expect_arity ctx args 1 2 >> optional_one_of ctx x509_kinds (get_elem? args 1))
        name args
    else if not (one_of name token_lists)
    then none
    else let most : ℕ = if text_eq name (codes "remote-cert-ku") then 8 else 1 in
      emit_if (expect_arity ctx args 1 most) name args

unfoldable pub as_typed : Ctx → Text → List Text → Outcome
unfolding parse_remote parse_route parse_dhcp_option parse_static_challenge parse_proxy one_of
    text_eq
as_typed ctx name args =
    if text_eq name (codes "remote")
    then some (parse_remote ctx args >>= λ r. ok (remote r))
    else if text_eq name (codes "route")
    then some (parse_route ctx args >>= λ r. ok (route r))
    else if text_eq name (codes "redirect-gateway")
    then some (ok (redirect_gateway (record { flags = args })))
    else if text_eq name (codes "dhcp-option")
    then some (parse_dhcp_option ctx args >>= λ d. ok (dhcp_option d))
    else if text_eq name (codes "static-challenge")
    then some (parse_static_challenge ctx args >>= λ c. ok (static_challenge c))
    else if one_of name (codes "http-proxy" ∷ codes "socks-proxy" ∷ [])
    then some (parse_proxy ctx args >>= λ a. ok (emitted name a))
    else none

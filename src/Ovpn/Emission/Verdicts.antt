-- ===== src/Ovpn/Emission/Verdicts.antt =====
-- Every directive that `classify` of shared/src/ovpn/directive.rs lets through can be written and
-- read back.
use thisconnect.Prelude.{
  ◌≡◌, refl, ap, subst, inl, inr, Bool, true, false, not, Option, none, some, List, [], ◌∷◌, arith,
  if◌then◌else◌, Bool-cases, and-left, and-right, ok, err, all, ok_parts,
}
use thisconnect.Prelude.Text.{Text, codes, text_eq, text_eq_iff, one_of, is_whitespace}
use thisconnect.Ovpn.Lexer.{RawDirective}
use thisconnect.Ovpn.Types.{Remote, StaticChallenge, remote_directive, challenge_directive}
use thisconnect.Ovpn.Args.{
  Ctx, Checked, check_charset, parse_remote, parse_proto, parse_dev, parse_peer_fingerprint,
  parse_static_challenge, parse_proxy, parse_route, parse_dhcp_option,
}
use thisconnect.Ovpn.Directive.{
  Classified, remote, route, redirect_gateway, dhcp_option, ignored, static_challenge, Outcome,
  choices, token_lists, as_keyword, as_crypto, as_typed, find_choice, emitted, dispatch, classify,
  reject_dangerous, in_scope, or_unknown, Scope,
}
use thisconnect.Ovpn.Error.{ValidationError}
use thisconnect.Ovpn.Emission.{AllAllowed}
use thisconnect.Ovpn.Emission.Allowed.{check_charset-AllAllowed}
use thisconnect.Ovpn.Emission.Accepted.{
  is_name, IsSound, Gives, emitted-IsSound, named_by, one_of-is_name, none-Gives, ok-Gives,
  if-Gives, emit_if-Gives, bind-Gives, first_some-Gives, unnegated,
}
use thisconnect.Ovpn.Emission.Handlers.{as_flag-Gives, as_number-Gives}
use thisconnect.Ovpn.Emission.Typed.{
  parse_proto-is_allowed, parse_dev-is_allowed, parse_peer_fingerprint-is_allowed,
  parse_remote-AllAllowed, parse_static_challenge-AllAllowed, parse_proxy-AllAllowed,
}

choice-Gives :
    (m : Option (List Text)) (make : List Text → Outcome)
    → ((allowed : List Text) → m ≡ some allowed → Gives (make allowed))
    → Gives (elim m [ none ↦ none | some allowed ↦ make allowed ])
choice-Gives none make h = none-Gives
choice-Gives (some allowed) make h = h allowed refl

find_choice-is_name :
    (name : Text) (cs : List (Text × List Text)) (r : List Text)
    → all (λ x. is_name x.0) cs ≡ true
    → find_choice name cs ≡ some r
    → is_name name ≡ true
unfolding find_choice
find_choice-is_name name [] r k h = cc
find_choice-is_name name ((n, allowed) ∷ cs) r k h = elim (Bool-cases (text_eq n name)) [
  | inl same ↦
      subst (λ t. is_name t ≡ true) ((text_eq_iff n name).0 same) (and-left (is_name n) _ k)
  | inr other ↦
      find_choice-is_name name cs r (and-right (is_name n) _ k) (rw (other, if◌then◌else◌) at h)
]

as_keyword-Gives :
    (ctx : Ctx) (name : Text) (args : List Text)
    → AllAllowed args
    → Gives (as_keyword ctx name args)
unfolding as_keyword is_whitespace
as_keyword-Gives ctx name args a =
    if-Gives (text_eq name (codes "dns-updown")) _ _ (λ _. ok-Gives ignored tt)
      (λ _.
        if-Gives (text_eq name (codes "setenv")) _ _ (λ _. ok-Gives ignored tt)
          (λ _.
            if-Gives (text_eq name (codes "proto")) _ _
              (λ same.
                bind-Gives (parse_proto ctx args) (λ p. emitted name (p ∷ []))
                  (λ p k.
                    emitted-IsSound name (p ∷ []) (named_by name (codes "proto") same refl)
                      (parse_proto-is_allowed ctx args p a k, tt)))
              (λ _.
                if-Gives (text_eq name (codes "dev")) _ _
                  (λ same.
                    bind-Gives (parse_dev ctx args) (λ p. emitted name (p ∷ []))
                      (λ p k.
                        emitted-IsSound name (p ∷ []) (named_by name (codes "dev") same refl)
                          (parse_dev-is_allowed ctx args p a k, tt)))
                  (λ _. choice-Gives (find_choice name choices) _ (λ allowed found.
                    emit_if-Gives _ name args (find_choice-is_name name choices allowed refl found)
                      a)))))

as_crypto-Gives :
    (ctx : Ctx) (name : Text) (args : List Text) → AllAllowed args → Gives (as_crypto ctx name args)
unfolding as_crypto is_whitespace
as_crypto-Gives ctx name args a =
    if-Gives (text_eq name (codes "peer-fingerprint")) _ _
      (λ same.
        bind-Gives (parse_peer_fingerprint ctx args) (λ p. emitted name (p ∷ []))
          (λ p k.
            emitted-IsSound name (p ∷ []) (named_by name (codes "peer-fingerprint") same refl)
              (parse_peer_fingerprint-is_allowed ctx args p a k, tt)))
      (λ _.
        if-Gives (text_eq name (codes "verify-x509-name")) _ _
          (λ same. emit_if-Gives _ name args (named_by name (codes "verify-x509-name") same refl) a)
          (λ _.
            if-Gives (not (one_of name token_lists)) _ _ (λ _. none-Gives)
              (λ known.
                emit_if-Gives _ name args
                  (one_of-is_name name token_lists (unnegated (one_of name token_lists) known) refl)
                  a)))

remote-IsSound : (r : Remote) → AllAllowed ((remote_directive r).args) → IsSound (remote r)
unfolding remote_directive is_whitespace
remote-IsSound r a = record { named = omega arith; plain_name = refl; allowed = a }

challenge-IsSound :
    (c : StaticChallenge) → AllAllowed ((challenge_directive c).args) → IsSound (static_challenge c)
unfolding challenge_directive is_whitespace
challenge-IsSound c a = record { named = omega arith; plain_name = refl; allowed = a }

as_typed-Gives :
    (ctx : Ctx) (name : Text) (args : List Text) → AllAllowed args → Gives (as_typed ctx name args)
unfolding as_typed is_whitespace
as_typed-Gives ctx name args a =
    if-Gives (text_eq name (codes "remote")) _ _
      (λ _.
        bind-Gives (parse_remote ctx args) remote
          (λ r k. remote-IsSound r (parse_remote-AllAllowed ctx args r a k)))
      (λ _.
        if-Gives (text_eq name (codes "route")) _ _
          (λ _. bind-Gives (parse_route ctx args) route (λ r k. tt))
          (λ _.
            if-Gives (text_eq name (codes "redirect-gateway")) _ _
              (λ _. ok-Gives (redirect_gateway (record { flags = args })) tt)
              (λ _.
                if-Gives (text_eq name (codes "dhcp-option")) _ _
                  (λ _. bind-Gives (parse_dhcp_option ctx args) dhcp_option (λ r k. tt))
                  (λ _.
                    if-Gives (text_eq name (codes "static-challenge")) _ _
                      (λ _. bind-Gives (parse_static_challenge ctx args) static_challenge (λ c k.
                        challenge-IsSound c (parse_static_challenge-AllAllowed ctx args c a k)))
                      (λ _.
                        if-Gives (one_of name (codes "http-proxy" ∷ codes "socks-proxy" ∷ [])) _ _
                          (λ known. bind-Gives (parse_proxy ctx args) (emitted name) (λ r k.
                            emitted-IsSound name r
                              (one_of-is_name name (codes "http-proxy" ∷ codes "socks-proxy" ∷ [])
                                known refl)
                              (parse_proxy-AllAllowed ctx args r a k)))
                          (λ _. none-Gives))))))

dispatch-Gives :
    (ctx : Ctx) (name : Text) (args : List Text) → AllAllowed args → Gives (dispatch ctx name args)
unfolding dispatch
dispatch-Gives ctx name args a = first_some-Gives _ _ (as_flag-Gives ctx name args) (
    first_some-Gives _ _ (as_number-Gives ctx name args a) (
      first_some-Gives _ _ (as_keyword-Gives ctx name args a)
        (first_some-Gives _ _ (as_crypto-Gives ctx name args a) (as_typed-Gives ctx name args a))))

or_unknown-IsSound :
    (ctx : Ctx) (name : Text) (o : Outcome) (v : Classified)
    → Gives o
    → or_unknown ctx name o ≡ ok v
    → IsSound v
or_unknown-IsSound ctx name none v g h = cc
or_unknown-IsSound ctx name (some r) v g h = g v (ap some h)

in_scope-IsSound :
    (b : Bool) (e : ValidationError) (m : Checked Classified) (v : Classified)
    → (if not b then err e else m) ≡ ok v
    → m ≡ ok v
in_scope-IsSound true e m v h = h
in_scope-IsSound false e m v h = cc

-- What `classify` lets through is, where it is to be written, a directive with a plain name and
-- with arguments of allowed characters only.
pub classify-IsSound :
    (raw : RawDirective) (scope : Scope) (v : Classified) → classify raw scope ≡ ok v → IsSound v
unfolding classify
classify-IsSound raw scope v h =
    let ctx : Ctx = record { line = raw.line; directive = raw.name } in
    let (_, h₁, _) = ok_parts _ (reject_dangerous ctx raw.name raw.args) h in
    let (_, h₂, charset) = ok_parts _ (check_charset ctx raw.args) h₁ in
    or_unknown-IsSound ctx raw.name (dispatch ctx raw.name raw.args) v
      (dispatch-Gives ctx raw.name raw.args (check_charset-AllAllowed ctx raw.args charset))
      (in_scope-IsSound (in_scope scope raw.name) _ _ v h₂)

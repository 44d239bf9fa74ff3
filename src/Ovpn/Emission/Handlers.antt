-- ===== src/Ovpn/Emission/Handlers.antt =====
-- Each handler of shared/src/ovpn/directive.rs gives sound verdicts.
use thisconnect.Prelude.{
  some-injective, ℕ, ◌≡◌, refl, subst, inl, inr, true, not, Option, none, some, List, [], ◌∷◌, ltb,
  if◌then◌else◌, Bool-cases, and-left, and-right, ok-injective, is_empty, all, ok_parts,
}
use thisconnect.Prelude.Text.{Text, codes, text_eq, text_eq_iff, one_of, is_whitespace}
use thisconnect.Ovpn.Args.{Ctx, arg_at, expect_no_args, expect_arity, parse_u32_in}
use thisconnect.Ovpn.Directive.{
  auth_user_pass, Outcome, flags, ranges, as_flag, as_number, as_verb, find_range,
}
use thisconnect.Ovpn.Emission.{AllAllowed}
use thisconnect.Ovpn.Emission.Allowed.{show-is_allowed}
use thisconnect.Ovpn.Emission.Accepted.{
  is_name, IsSound, Gives, emitted-IsSound, named_by, one_of-is_name, none-Gives, ok-Gives,
  err-Gives, if-Gives, emit_if-Gives, unnegated,
}

pub as_flag-Gives : (ctx : Ctx) (name : Text) (args : List Text) → Gives (as_flag ctx name args)
unfolding as_flag is_whitespace
as_flag-Gives ctx name args =
    if-Gives (text_eq name (codes "auth-user-pass")) _ _
      (λ _. if-Gives (not (is_empty args)) _ _ (λ _. err-Gives _) (λ _. ok-Gives auth_user_pass tt))
      (λ _.
        if-Gives (not (one_of name flags)) _ _ (λ _. none-Gives)
          (λ known.
            emit_if-Gives (expect_no_args ctx args) name []
              (one_of-is_name name flags (unnegated (one_of name flags) known) refl) tt))

range-Gives :
    (m : Option (ℕ × ℕ)) (make : ℕ → ℕ → Outcome)
    → ((lo hi : ℕ) → m ≡ some (lo, hi) → Gives (make lo hi))
    → Gives (elim m [ none ↦ none | some (lo, hi) ↦ make lo hi ])
range-Gives none make h = none-Gives
range-Gives (some (lo, hi)) make h = h lo hi refl

find_range-is_name :
    (name : Text) (rs : List (Text × ℕ × ℕ)) (r : ℕ × ℕ)
    → all (λ x. is_name x.0) rs ≡ true
    → find_range name rs ≡ some r
    → is_name name ≡ true
unfolding find_range
find_range-is_name name [] r k h = cc
find_range-is_name name ((n, lo, hi) ∷ rs) r k h = elim (Bool-cases (text_eq n name)) [
  | inl same ↦
      subst (λ t. is_name t ≡ true) ((text_eq_iff n name).0 same) (and-left (is_name n) _ k)
  | inr other ↦
      find_range-is_name name rs r (and-right (is_name n) _ k) (rw (other, if◌then◌else◌) at h)
]

as_verb-Gives :
    (ctx : Ctx) (name : Text) (args : List Text)
    → is_name name ≡ true
    → Gives (some (as_verb ctx name args))
unfolding as_verb
as_verb-Gives ctx name args n v h =
    let (_, h₁, _) = ok_parts _ (expect_arity ctx args 1 1) (some-injective h) in
    let (raw, h₂, _) = ok_parts _ (parse_u32_in ctx (arg_at args 0) 0 11) h₁ in
    subst IsSound (ok-injective h₂)
      (emitted-IsSound name _ n (show-is_allowed (if ltb raw 4 then raw else 4), tt))

pub as_number-Gives :
    (ctx : Ctx) (name : Text) (args : List Text) → AllAllowed args → Gives (as_number ctx name args)
unfolding as_number is_whitespace
as_number-Gives ctx name args a =
    if-Gives (text_eq name (codes "verb")) _ _
      (λ same. as_verb-Gives ctx name args (named_by name (codes "verb") same refl))
      (λ _.
        if-Gives (one_of name (codes "keepalive" ∷ codes "connect-retry" ∷ [])) _ _
          (λ known.
            emit_if-Gives _ name args
              (one_of-is_name name (codes "keepalive" ∷ codes "connect-retry" ∷ []) known refl) a)
          (λ _.
            if-Gives (text_eq name (codes "resolv-retry")) _ _
              (λ same. emit_if-Gives _ name args (named_by name (codes "resolv-retry") same refl) a)
              (λ _.
                if-Gives (text_eq name (codes "explicit-exit-notify")) _ _
                  (λ same.
                    emit_if-Gives _ name args
                      (named_by name (codes "explicit-exit-notify") same refl) a)
                  (λ _. range-Gives (find_range name ranges) _ (λ lo hi found.
                    emit_if-Gives _ name args (find_range-is_name name ranges (lo, hi) refl found)
                      a)))))

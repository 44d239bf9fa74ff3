-- ===== src/Ovpn/Profile/Vetted.antt =====
-- What `classify` of shared/src/ovpn/directive.rs has found of a directive that it lets through.
use thisconnect.Prelude.{
  ◌≡◌, refl, Bool, true, false, not, ◌&&◌, Option, none, some, List, [], ◌∷◌, if◌then◌else◌, Result,
  ok, err, all, ok_parts,
}
use thisconnect.Prelude.Text.{Text, codes, text_eq, starts_with, contains}
use thisconnect.Ovpn.Error.{ValidationError}
use thisconnect.Ovpn.Lexer.{RawDirective}
use thisconnect.Ovpn.Args.{Ctx, is_allowed_char, check_charset}
use thisconnect.Ovpn.Directive.{
  Classified, classify, danger, find_reason, first_is, is_inert_setenv, hard_reject, in_scope,
  reject_dangerous, Scope,
}

-- A directive that names no script, no path, no loaded code and no management option, as the table
-- lists them, and that sets up no tap device and nothing but inert variables.
pub record IsHarmless (name : Text) (args : List Text) : Type 0 where
  pub no_management : starts_with (codes "management") name ≡ false
  pub dns_disabled :
      (text_eq name (codes "dns-updown") && not (first_is args (codes "disable"))) ≡ false
  pub no_tap : (text_eq name (codes "dev") && first_is args (codes "tap")) ≡ false
  pub inert : (text_eq name (codes "setenv") && not (is_inert_setenv args)) ≡ false
  pub unlisted : all (λ entry. not (text_eq entry.0 name)) hard_reject ≡ true

-- An argument of the validator's characters that names no parent directory.
abbrev pub is_safe : Text → Bool
is_safe arg = all is_allowed_char arg && not (contains arg (codes ".."))

-- A harmless directive line of safe arguments, valid in its scope, that the allowlist has a place
-- for.
abbrev pub IsVetted : Scope → RawDirective → Type 0
IsVetted scope raw =
    IsHarmless raw.name raw.args
    × (all is_safe raw.args ≡ true)
    × (in_scope scope raw.name ≡ true)
    × (v : Classified) × (classify raw scope ≡ ok v)

no_reason :
    (m : Option Text) (why : Text → ValidationError)
    → ◌≡◌ {A = Result ValidationError Unit}
        (elim m [ none ↦ ok tt | some reason ↦ err (why reason) ])
        (ok tt)
    → m ≡ none
no_reason none why h = refl
no_reason (some reason) why h = cc

no_reason_parts :
    (b : Bool) (why : Text) (m : Option Text)
    → (if b then some why else m) ≡ none
    → (b ≡ false) × (m ≡ none)
no_reason_parts true why m h = cc
no_reason_parts false why m h = (refl, h)

find_reason-none :
    (name : Text) (table : List (Text × Text))
    → find_reason name table ≡ none
    → all (λ entry. not (text_eq entry.0 name)) table ≡ true
unfolding find_reason
find_reason-none name [] h = refl
find_reason-none name ((n, why) ∷ rest) h =
    let (other, later) = no_reason_parts (text_eq n name) why (find_reason name rest) h in
    rw (other, find_reason-none name rest later)

danger-none : (name : Text) (args : List Text) → danger name args ≡ none → IsHarmless name args
unfolding danger
danger-none name args h =
    let (no_management, h₁) = no_reason_parts (starts_with (codes "management") name) _ _ h in
    let (dns_disabled, h₂) =
      no_reason_parts (text_eq name (codes "dns-updown") && not (first_is args (codes "disable"))) _
        _ h₁ in
    let (no_tap, h₃) =
      no_reason_parts (text_eq name (codes "dev") && first_is args (codes "tap")) _ _ h₂ in
    let (inert, h₄) =
      no_reason_parts (text_eq name (codes "setenv") && not (is_inert_setenv args)) _ _ h₃ in
    record {
      no_management = no_management;
      dns_disabled = dns_disabled;
      no_tap = no_tap;
      inert = inert;
      unlisted = find_reason-none name hard_reject h₄;
    }

reject_dangerous-IsHarmless :
    (ctx : Ctx) (name : Text) (args : List Text)
    → reject_dangerous ctx name args ≡ ok tt
    → IsHarmless name args
unfolding reject_dangerous
reject_dangerous-IsHarmless ctx name args h =
    danger-none name args (no_reason (danger name args) _ h)

safe_parts :
    (parent allowed : Bool) (e : ValidationError) (later : Result ValidationError Unit)
    → ◌≡◌ {A = Result ValidationError Unit}
        (if parent then err e else if not allowed then err e else later)
        (ok tt)
    → ((allowed && not parent) ≡ true) × (later ≡ ok tt)
safe_parts true allowed e later h = cc
safe_parts false true e later h = (refl, h)
safe_parts false false e later h = cc

check_charset-is_safe :
    (ctx : Ctx) (args : List Text) → check_charset ctx args ≡ ok tt → all is_safe args ≡ true
unfolding check_charset
check_charset-is_safe ctx [] h = refl
check_charset-is_safe ctx (arg ∷ rest) h =
    let (safe, later) =
      safe_parts (contains arg (codes "..")) (all is_allowed_char arg) _ (check_charset ctx rest)
        h in
    rw (safe, check_charset-is_safe ctx rest later)

in_scope_part :
    (b : Bool) (e : ValidationError) (m : Result ValidationError Classified) (v : Classified)
    → (if not b then err e else m) ≡ ok v
    → b ≡ true
in_scope_part true e m v h = refl
in_scope_part false e m v h = cc

pub classify-IsVetted :
    (scope : Scope) (raw : RawDirective) (v : Classified)
    → classify raw scope ≡ ok v
    → IsVetted scope raw
unfolding classify
classify-IsVetted scope raw v h =
    let ctx : Ctx = record { line = raw.line; directive = raw.name } in
    let (_, h₁, harmless) = ok_parts _ (reject_dangerous ctx raw.name raw.args) h in
    let (_, h₂, charset) = ok_parts _ (check_charset ctx raw.args) h₁ in
    (
      reject_dangerous-IsHarmless ctx raw.name raw.args harmless,
      check_charset-is_safe ctx raw.args charset,
      in_scope_part (in_scope scope raw.name) _ _ v h₂,
      v,
      h,
    )

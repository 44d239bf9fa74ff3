-- ===== src/Ovpn/Directive.antt =====
-- shared/src/ovpn/directive.rs: the allowlist. What no handler takes is refused.
mod Tables
mod Handlers
pub use Tables.{
  inline_material, hard_reject, connection_scoped, inert_setenv, flags, ranges, choices,
  token_lists,
}
pub use Handlers.{
  emitted, emit_if, emit_one, infinite_or_in, optional_in, optional_one_of, x509_kinds, Classified,
  emit, remote, route, redirect_gateway, dhcp_option, auth_user_pass, ignored, static_challenge,
  Outcome,
}
unfoldable pub use Handlers.{
  as_flag, find_range, all_in_range, as_verb, as_number, find_choice, as_keyword, as_crypto,
  as_typed,
}
use thisconnect.Prelude.{
  ◌>>=◌, ◌>>◌, ◌-◌, ◌<◌, Bool, true, false, not, ◌&&◌, ◌||◌, Option, none, some, List, [], ◌∷◌,
  if◌then◌else◌, ok, err,
}
use thisconnect.Prelude.Text.{Text, codes, text_eq, one_of, starts_with}
use thisconnect.Ovpn.Error.{forbidden_directive, unknown_directive}
use thisconnect.Ovpn.Lexer.{RawDirective}
use thisconnect.Ovpn.Args.{Ctx, Checked, check_charset}

pub data Scope : Type 0 where
  top_level connection : Scope

unfoldable pub is_inline_material : Text → Bool
unfolding one_of
is_inline_material tag = one_of tag inline_material

abbrev pub first_is : List Text → Text → Bool
first_is [] word = false
first_is (a ∷ rest) word = text_eq a word

-- `INERT_SETENV.iter().any(..)`
unfoldable pub any_inert : List (Text × List Text) → Text → Text → Bool
unfolding one_of text_eq
any_inert [] name value = false
any_inert ((known, values) ∷ rest) name value =
    (text_eq known name && one_of value values) || any_inert rest name value

unfoldable pub is_inert_setenv : List Text → Bool
unfolding any_inert
is_inert_setenv (name ∷ value ∷ []) = any_inert inert_setenv name value
is_inert_setenv _ = false

-- `HARD_REJECT.iter().find(..)`
unfoldable pub find_reason : Text → List (Text × Text) → Option Text
unfolding text_eq
find_reason name [] = none
find_reason name ((n, reason) ∷ rest) =
    let later = find_reason name rest in if text_eq n name then some reason else later

unfoldable pub danger : Text → List Text → Option Text
unfolding find_reason is_inert_setenv starts_with text_eq
danger name args =
    if starts_with (codes "management") name
    then some (codes "hijacks the daemon's control channel")
    else if text_eq name (codes "dns-updown") && not (first_is args (codes "disable"))
    then some (codes "runs the built-in dns handler as root")
    else if text_eq name (codes "dev") && first_is args (codes "tap")
    then some (codes "tap devices are not supported")
    else if text_eq name (codes "setenv") && not (is_inert_setenv args)
    then some (codes "injects environment into the privileged process")
    else find_reason name hard_reject

unfoldable pub reject_dangerous : Ctx → Text → List Text → Checked Unit
unfolding danger
reject_dangerous ctx name args = elim (danger name args) [
  | none ↦ ok tt
  | some reason ↦ err (forbidden_directive ctx.line name reason)
]

abbrev pub in_scope : Scope → Text → Bool
in_scope top_level name = true
in_scope connection name = one_of name connection_scoped

abbrev not_in_connection : Text
not_in_connection = codes "not valid inside a <connection> block"

-- the loop over the handlers, in their order
abbrev pub first_some : Outcome → Outcome → Outcome
first_some none later = later
first_some (some result) later = some result

unfoldable pub dispatch : Ctx → Text → List Text → Outcome
unfolding as_flag as_number as_keyword as_crypto as_typed
dispatch ctx name args = first_some (as_flag ctx name args) (
    first_some (as_number ctx name args) (
      first_some (as_keyword ctx name args)
        (first_some (as_crypto ctx name args) (as_typed ctx name args))))

abbrev pub or_unknown : Ctx → Text → Outcome → Checked Classified
or_unknown ctx name none = err (unknown_directive ctx.line name)
or_unknown ctx name (some result) = result

unfoldable pub classify : RawDirective → Scope → Checked Classified
unfolding reject_dangerous dispatch check_charset one_of
classify raw scope =
    let ctx : Ctx = record { line = raw.line; directive = raw.name } in
    do
      reject_dangerous ctx raw.name raw.args
      check_charset ctx raw.args
      if not (in_scope scope raw.name)
          then err (forbidden_directive raw.line raw.name not_in_connection)
          else or_unknown ctx raw.name (dispatch ctx raw.name raw.args)

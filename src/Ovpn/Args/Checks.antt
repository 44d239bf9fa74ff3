-- ===== src/Ovpn/Args/Checks.antt =====
-- The checks of shared/src/ovpn/args.rs on one argument or on their number. Where the source
-- indexes `args[i]` behind an arity check, an index out of range reads as the empty text here.
use thisconnect.Prelude.{
  ℕ, Bool, false, not, ◌&&◌, ◌||◌, none, some, List, [], ◌∷◌, ltb, leb, ◌==◌, if◌then◌else◌, Result,
  ok, err, is_some, length, get_elem?, is_empty, all, any, ◌>>=◌,
}
use thisconnect.Prelude.Text.{
  Text, codes, one_of, starts_with, strip_suffix_char, is_ascii_alphanumeric, byte_len, contains,
}
use thisconnect.Prelude.Split.{split, parse_unsigned, u32_max}
use thisconnect.Net.{parse_ip}
use thisconnect.Ovpn.Error.{ValidationError, invalid_argument, unsafe_argument}
use thisconnect.Ovpn.Types.{RemoteHost, name, ip}

pub record Ctx : Type 0 where
  pub line : ℕ
  pub directive : Text

abbrev pub Checked : Type 0 → Type 0
Checked A = Result ValidationError A

abbrev pub invalid : Ctx → ValidationError
invalid ctx = invalid_argument ctx.line ctx.directive

abbrev pub unsafe_arg : Ctx → ValidationError
unsafe_arg ctx = unsafe_argument ctx.line ctx.directive

-- `args[i]`
unfoldable pub arg_at : List Text → ℕ → Text
arg_at args i = elim (get_elem? args i) [ none ↦ [] | some a ↦ a ]

abbrev pub allowed_punctuation : Text
allowed_punctuation = codes "._-:/,=+@[]% "

abbrev pub is_allowed_char : ℕ → Bool
is_allowed_char c = is_ascii_alphanumeric c || any (λ p. p == c) allowed_punctuation

unfoldable pub check_charset : Ctx → List Text → Checked Unit
unfolding contains
check_charset ctx [] = ok tt
check_charset ctx (arg ∷ rest) =
    let later = check_charset ctx rest in
    if contains arg (codes "..")
    then err (unsafe_arg ctx)
    else if not (all is_allowed_char arg)
    then err (unsafe_arg ctx)
    else later

unfoldable pub expect_no_args : Ctx → List Text → Checked Unit
expect_no_args ctx args = if is_empty args then ok tt else err (invalid ctx)

unfoldable pub expect_arity : Ctx → List Text → ℕ → ℕ → Checked Unit
expect_arity ctx args lo hi =
    if ltb (length args) lo || ltb hi (length args) then err (invalid ctx) else ok tt

unfoldable pub parse_u32_in : Ctx → Text → ℕ → ℕ → Checked ℕ
unfolding parse_unsigned
parse_u32_in ctx arg lo hi = elim (parse_unsigned u32_max arg) [
  | none ↦ err (invalid ctx)
  | some value ↦ if ltb value lo || ltb hi value then err (invalid ctx) else ok value
]

-- the conversion to `u16` cannot fail below 65536
unfoldable pub parse_port : Ctx → Text → Checked ℕ
parse_port ctx arg = do
  port ← parse_u32_in ctx arg 1 65535
  if ltb 65535 port then err (invalid ctx) else ok port

unfoldable pub expect_one_of : Ctx → Text → List Text → Checked Unit
unfolding one_of
expect_one_of ctx arg allowed = if one_of arg allowed then ok tt else err (invalid ctx)

abbrev pub is_label_char : ℕ → Bool
is_label_char c = is_ascii_alphanumeric c || c == b'-'

abbrev last_is : ℕ → Text → Bool
last_is c t = is_some (strip_suffix_char c t)

unfoldable pub is_label : Text → Bool
unfolding starts_with strip_suffix_char
is_label label =
    not (is_empty label)
    && leb (byte_len label) 63
    && not (starts_with (codes "-") label)
    && not (last_is b'-' label)
    && all is_label_char label

abbrev without_dot : Text → Text
without_dot host = elim (strip_suffix_char b'.' host) [ none ↦ host | some front ↦ front ]

unfoldable pub is_rfc1123_hostname : Text → Bool
unfolding is_label split strip_suffix_char
is_rfc1123_hostname host =
    if is_empty host || ltb 253 (byte_len host)
    then false
    else not (is_empty (without_dot host)) && all is_label (split b'.' (without_dot host))

unfoldable pub parse_host : Ctx → Text → Checked RemoteHost
unfolding is_rfc1123_hostname parse_ip
parse_host ctx arg = elim (parse_ip arg) [
  | some a ↦ ok (ip a)
  | none ↦ if is_rfc1123_hostname arg then ok (name arg) else err (invalid ctx)
]

-- ===== src/Ovpn/Emission/Allowed.antt =====
-- The texts that the handlers of shared/src/ovpn/args.rs write have only characters that
-- `check_charset` lets through.
use thisconnect.Prelude.{
  some-injective, ℕ, zero, suc, ◌-◌, ◌≡◌, refl, subst, inl, inr, Bool, true, false, not, some, List,
  [], ◌∷◌, arith, if◌then◌else◌, Bool-cases, and-left, and-right, ok, err, get_elem?, all,
}
use thisconnect.Prelude.Text.{Text, codes, within, is_ascii_digit, is_ascii_alphanumeric, contains}
use thisconnect.Net.{
  IpAddr, show, show-is_ascii_digit, show_ip, is_address_char, all_implies, show_ip-is_address_char,
}
use thisconnect.Ovpn.Types.{name, ip, show_host}
use thisconnect.Ovpn.Args.{
  Ctx, Checked, is_allowed_char, arg_at, check_charset, ascii_upper, to_ascii_uppercase,
}
use thisconnect.Ovpn.Error.{ValidationError}
use thisconnect.Ovpn.Emission.{AllAllowed}

-- The check on one argument.
abbrev pub is_allowed : Text → Bool
is_allowed t = all is_allowed_char t

digit_is_allowed : (c : ℕ) → is_ascii_digit c ≡ true → is_allowed_char c ≡ true
unfolding is_ascii_alphanumeric
digit_is_allowed c h = ground arith

pub show-is_allowed : (n : ℕ) → is_allowed (show n) ≡ true
show-is_allowed n =
    all_implies is_ascii_digit is_allowed_char (show n) digit_is_allowed (show-is_ascii_digit n)

address_is_allowed : (c : ℕ) → is_address_char c ≡ true → is_allowed_char c ≡ true
address_is_allowed c h = ground arith

pub show_host_name-is_allowed :
    (t : Text) → is_allowed t ≡ true → is_allowed (show_host (name t)) ≡ true
unfolding show_host
show_host_name-is_allowed t h = h

pub show_host_ip-is_allowed : (a : IpAddr) → is_allowed (show_host (ip a)) ≡ true
unfolding show_host
show_host_ip-is_allowed a =
    all_implies is_address_char is_allowed_char (show_ip a) address_is_allowed
      (show_ip-is_address_char a)

alphanumeric_is_allowed : (c : ℕ) → is_ascii_alphanumeric c ≡ true → is_allowed_char c ≡ true
alphanumeric_is_allowed c h = rw h

ascii_upper-is_allowed : (c : ℕ) → is_allowed_char c ≡ true → is_allowed_char (ascii_upper c) ≡ true
unfolding is_ascii_alphanumeric
ascii_upper-is_allowed c h = elim (Bool-cases (within b'a' b'z' c)) [
  | inl lower ↦ rw (lower, if◌then◌else◌) (alphanumeric_is_allowed (c - 32) (ground arith))
  | inr other ↦ rw (other, if◌then◌else◌) h
]

pub to_ascii_uppercase-is_allowed :
    (t : Text) → is_allowed t ≡ true → is_allowed (to_ascii_uppercase t) ≡ true
unfolding to_ascii_uppercase
to_ascii_uppercase-is_allowed [] h = refl
to_ascii_uppercase-is_allowed (c ∷ t) h = rw (
  ascii_upper-is_allowed c (and-left (is_allowed_char c) (is_allowed t) h),
  to_ascii_uppercase-is_allowed t (and-right (is_allowed_char c) (is_allowed t) h),
)

pub get_elem?-is_allowed :
    (args : List Text) (i : ℕ) (a : Text)
    → AllAllowed args
    → get_elem? args i ≡ some a
    → is_allowed a ≡ true
get_elem?-is_allowed [] i a h k = cc
get_elem?-is_allowed (x ∷ args) zero a h k = subst (λ t. is_allowed t ≡ true) (some-injective k) h.0
get_elem?-is_allowed (x ∷ args) (suc i) a h k = get_elem?-is_allowed args i a h.1 k

pub arg_at-is_allowed :
    (args : List Text) (i : ℕ) → AllAllowed args → is_allowed (arg_at args i) ≡ true
unfolding arg_at
arg_at-is_allowed [] i h = refl
arg_at-is_allowed (x ∷ args) zero h = h.0
arg_at-is_allowed (x ∷ args) (suc i) h = arg_at-is_allowed args i h.1

charset_step :
    (b c : Bool) (later : Checked Unit) (e : ValidationError)
    → (if b then err e else if not c then err e else later) ≡ ok tt
    → (c ≡ true) × (later ≡ ok tt)
charset_step true c later e h = cc
charset_step false true later e h = (refl, h)
charset_step false false later e h = cc

pub check_charset-AllAllowed :
    (ctx : Ctx) (args : List Text) → check_charset ctx args ≡ ok tt → AllAllowed args
unfolding check_charset
check_charset-AllAllowed ctx [] h = tt
check_charset-AllAllowed ctx (a ∷ args) h =
    let (here, later) =
      charset_step (contains a (codes "..")) (all is_allowed_char a) (check_charset ctx args) _ h in
    (here, check_charset-AllAllowed ctx args later)

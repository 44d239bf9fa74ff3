-- ===== src/Ovpn/Emission.antt =====
-- A directive as `EmittedDirective::fmt` of shared/src/ovpn/profile.rs writes it, read back by the
-- configuration lexer of lexer.rs.
pub mod Allowed
pub mod Accepted
pub mod Handlers
pub mod Typed
pub mod Verdicts
use thisconnect.Prelude.{
  ℕ, ◌<◌, ◌≡◌, refl, sym, ap, subst, ◌∙◌, inl, inr, Bool, true, false, ◌||◌, List, [], ◌∷◌, ◌++◌,
  append_assoc, arith, ◌==◌, if◌then◌else◌, Bool-cases, ==_iff, and-left, and-right, ok, length,
  all, any, All,
}
use thisconnect.Prelude.Text.{Text, is_ascii_alphanumeric, is_whitespace}
use thisconnect.Mgmt.Escape.{escape_char, escape_body}
use thisconnect.Ovpn.Lexer.{Lexing, scan_all, finish_tokens, tokenize}
use thisconnect.Ovpn.Lexer.Tokens.{
  is_plain, at_token, scan_all-quoted, scan_all-bare, scan_all_first, finish_at_token,
}
use thisconnect.Ovpn.Types.{EmittedDirective, has_space, show_arg, show_args, show_directive}
use thisconnect.Ovpn.Args.{is_allowed_char, allowed_punctuation}

-- Every character of every argument is one that the validator lets through.
abbrev pub AllAllowed : List Text → Type 0
AllAllowed = All (λ a. all is_allowed_char a ≡ true)

pub record IsEmittable (d : EmittedDirective) : Type 0 where
  pub named : 0 < length d.name
  pub plain_name : all is_plain d.name ≡ true
  pub allowed : AllAllowed d.args

alphanumeric_is_plain : (c : ℕ) → is_ascii_alphanumeric c ≡ true → is_plain c ≡ true
unfolding is_ascii_alphanumeric is_whitespace
alphanumeric_is_plain c h = ground arith

-- What holds of every member of a list holds of what is found in it.
found_in-all :
    (f : ℕ → Bool) (c : ℕ) (ps : List ℕ)
    → any (λ p. p == c) ps ≡ true
    → all f ps ≡ true
    → f c ≡ true
found_in-all f c [] h k = cc
found_in-all f c (p ∷ ps) h k = elim (Bool-cases (p == c)) [
  | inl same ↦ subst (λ x. f x ≡ true) ((==_iff p c).0 same) (and-left (f p) _ k)
  | inr other ↦ found_in-all f c ps (rw other at h) (and-right (f p) _ k)
]

plain_or_space : ℕ → Bool
plain_or_space p = is_plain p || p == b' '

left_of_or : (a b : Bool) → (a || b) ≡ true → b ≡ false → a ≡ true
left_of_or false true h k = cc
left_of_or false false h k = h
left_of_or true b h k = refl

right_of_or : (a b : Bool) → (a || b) ≡ true → a ≡ false → b ≡ true
right_of_or false b h k = h
right_of_or true b h k = cc

punctuation_is_plain :
    (c : ℕ) → any (λ p. p == c) allowed_punctuation ≡ true → plain_or_space c ≡ true
unfolding is_whitespace plain_or_space
punctuation_is_plain c h = found_in-all plain_or_space c allowed_punctuation h refl

pub allowed_is_plain : (c : ℕ) → is_allowed_char c ≡ true → (c == b' ') ≡ false → is_plain c ≡ true
unfolding plain_or_space
allowed_is_plain c h k = elim (Bool-cases (is_ascii_alphanumeric c)) [
  | inl alnum ↦ alphanumeric_is_plain c alnum
  | inr other ↦
      left_of_or (is_plain c) _
        (punctuation_is_plain c (right_of_or (is_ascii_alphanumeric c) _ h other)) k
]

allowed-no_escape : (c : ℕ) → is_allowed_char c ≡ true → (c == b'"' || c == b'\\') ≡ false
unfolding is_ascii_alphanumeric
allowed-no_escape c h = ground arith

all-is_plain :
    (a : Text) → all is_allowed_char a ≡ true → has_space a ≡ false → all is_plain a ≡ true
all-is_plain [] h k = refl
all-is_plain (c ∷ a) h k = elim (Bool-cases (c == b' ')) [
  | inl space ↦ cc (rw space at k)
  | inr other ↦
      rw (allowed_is_plain c (and-left _ _ h) other)
        (all-is_plain a (and-right _ _ h) (rw other at k))
]

escape_body-allowed : (a : Text) → all is_allowed_char a ≡ true → escape_body a ≡ a
unfolding escape_body escape_char
escape_body-allowed [] h = refl
escape_body-allowed (c ∷ a) h = rw (
  allowed-no_escape c (and-left (is_allowed_char c) (all is_allowed_char a) h),
  escape_body-allowed a (and-right (is_allowed_char c) (all is_allowed_char a) h),
)

quoted_arg :
    (a rest : Text) (ts : List Text) (w : Text)
    → all is_allowed_char a ≡ true
    → scan_all ((b' ' ∷ b'"' ∷ (a ++ b'"' ∷ [])) ++ rest) (at_token ts w)
      ≡ scan_all rest (at_token (ts ++ w ∷ []) a)
quoted_arg a rest ts w h =
    ap (λ (t : Text). scan_all (b' ' ∷ b'"' ∷ t) (at_token ts w))
      (append_assoc a (b'"' ∷ []) rest
        ∙ ap (λ (t : Text). t ++ (b'"' ∷ rest)) (sym (escape_body-allowed a h)))
    ∙ scan_all-quoted a rest ts w

-- One written argument ends the token before it and is the next token.
scan_all-show_arg :
    (a rest : Text) (ts : List Text) (w : Text)
    → all is_allowed_char a ≡ true
    → scan_all (show_arg a ++ rest) (at_token ts w) ≡ scan_all rest (at_token (ts ++ w ∷ []) a)
unfolding show_arg
scan_all-show_arg [] rest ts w h = quoted_arg [] rest ts w h
scan_all-show_arg (c ∷ a) rest ts w h = elim (Bool-cases (has_space (c ∷ a))) [
  | inl spaced ↦ rw (spaced, if◌then◌else◌) (quoted_arg (c ∷ a) rest ts w h)
  | inr solid ↦
      rw (solid, if◌then◌else◌) (scan_all-bare c a rest ts w (all-is_plain (c ∷ a) h solid))
]

scan_all-show_args :
    (params : List Text) (ts : List Text) (w : Text) (n : ℕ)
    → AllAllowed params
    → finish_tokens (scan_all (show_args params) (at_token ts w)) n ≡ ok (ts ++ w ∷ params)
unfolding show_args
scan_all-show_args [] ts w n h = finish_at_token ts w n
scan_all-show_args (a ∷ params) ts w n h =
    ap (λ (st : Lexing). finish_tokens st n) (scan_all-show_arg a (show_args params) ts w h.0)
    ∙ scan_all-show_args params (ts ++ w ∷ []) a n h.1
    ∙ ap (λ (l : List Text). ok l) (append_assoc ts (w ∷ []) (a ∷ params))

tokenize_named :
    (name : Text) (args : List Text) (n : ℕ)
    → 0 < length name
    → all is_plain name ≡ true
    → AllAllowed args
    → tokenize (name ++ show_args args) n ≡ ok (name ∷ args)
unfolding tokenize
tokenize_named [] args n h k a = elim h [ ]
tokenize_named (c ∷ name) args n h k a =
    ap (λ (st : Lexing). finish_tokens st n) (scan_all_first c name (show_args args) k)
    ∙ scan_all-show_args args [] (c ∷ name) n a

-- A written directive with a plain name and allowed arguments is read back as its name and its
-- arguments, empty arguments and arguments with spaces included.
pub tokenize-show_directive :
    (d : EmittedDirective) (n : ℕ)
    → IsEmittable d
    → tokenize (show_directive d) n ≡ ok (d.name ∷ d.args)
unfolding show_directive
tokenize-show_directive d n e = tokenize_named d.name d.args n e.named e.plain_name e.allowed

-- ===== src/Mgmt/Escape/Framing.antt =====
-- A command of daemon/src/mgmt/escape.rs, read back by the configuration lexer's rules as
-- shared/src/ovpn/lexer.rs states them.
use thisconnect.Prelude.{
  ℕ, ◌≤◌, ◌≡◌, refl, ap, ◌∙◌, inl, inr, true, false, not, ◌||◌, List, [], ◌∷◌, ◌++◌, append-nil,
  append_assoc, arith, if◌then◌else◌, Bool-cases, ok, ok-injective, is_empty, all, any, ◌>>◌,
  ok_parts,
}
use thisconnect.Prelude.Text.{Text, is_ascii_alphanumeric, is_whitespace, byte_len}
use thisconnect.Mgmt.Escape.{
  max_line_bytes, is_framing_hazard, is_verb_byte, escape_body, escape_param, check_line_length,
  append_params, build_command,
}
use thisconnect.Ovpn.Lexer.{scan_all, finish_tokens, tokenize}
use thisconnect.Ovpn.Lexer.Tokens.{
  is_plain, at_token, scan_all-quoted, scan_all_first, finish_at_token,
}

-- Each parameter behind a space, in double quotes.
abbrev quoted_params : List Text → Text
quoted_params [] = []
quoted_params (p ∷ ps) = b' ' ∷ b'"' ∷ (escape_body p ++ (b'"' ∷ quoted_params ps))

scan_all-quoted_params :
    (ps : List Text) (ts : List Text) (w : Text) (n : ℕ)
    → finish_tokens (scan_all (quoted_params ps) (at_token ts w)) n ≡ ok (ts ++ w ∷ ps)
scan_all-quoted_params [] ts w n = finish_at_token ts w n
scan_all-quoted_params (p ∷ ps) ts w n = rw (scan_all-quoted p (quoted_params ps) ts w) (
    scan_all-quoted_params ps (ts ++ w ∷ []) p n
    ∙ ap (λ (l : List Text). ok l) (append_assoc ts (w ∷ []) (p ∷ ps)))

append_params-quoted :
    (ps : List Text) (acc line : Text)
    → append_params acc ps ≡ ok line
    → line ≡ acc ++ quoted_params ps
unfolding append_params escape_param
append_params-quoted [] acc line h = ground (arith, append-nil acc)
append_params-quoted (p ∷ ps) acc line h = elim (Bool-cases (any is_framing_hazard p)) [
  | inl bad ↦ cc (rw bad at h)
  | inr fine ↦
      append_params-quoted ps (acc ++ (b' ' ∷ b'"' ∷ (escape_body p ++ b'"' ∷ []))) line
        (rw fine at h)
      ∙ append_assoc acc (b' ' ∷ b'"' ∷ (escape_body p ++ b'"' ∷ [])) (quoted_params ps)
      ∙ ap (λ (t : Text). acc ++ (b' ' ∷ b'"' ∷ t))
          (append_assoc (escape_body p) (b'"' ∷ []) (quoted_params ps))
]

is_verb_byte-is_plain : (c : ℕ) → is_verb_byte c ≡ true → is_plain c ≡ true
unfolding is_ascii_alphanumeric is_whitespace
is_verb_byte-is_plain c h = ground arith

all-is_plain : (t : Text) → all is_verb_byte t ≡ true → all is_plain t ≡ true
all-is_plain [] h = refl
all-is_plain (c ∷ t) h = ground (arith, is_verb_byte-is_plain c, all-is_plain t)

-- What a command that passed is: a line of at most 900 bytes with no line feed, carriage return or
-- NUL, which the lexer reads as the verb and the parameters, whatever characters these hold.
pub record IsSent (verb : Text) (params : List Text) (line : Text) : Type 0 where
  pub short : byte_len line ≤ max_line_bytes
  pub one_line : any is_framing_hazard line ≡ false
  pub reads_back : (n : ℕ) → tokenize line n ≡ ok (verb ∷ params)

check_line_length-ok :
    (line : Text)
    → check_line_length line ≡ ok tt
    → (byte_len line ≤ max_line_bytes) × (any is_framing_hazard line ≡ false)
unfolding check_line_length
check_line_length-ok line h = ground arith

tokenize_command :
    (verb : Text) (params : List Text) (n : ℕ)
    → is_empty verb ≡ false
    → all is_verb_byte verb ≡ true
    → tokenize (verb ++ quoted_params params) n ≡ ok (verb ∷ params)
unfolding tokenize
tokenize_command [] params n h k = cc
tokenize_command (c ∷ verb) params n h k =
    rw (scan_all_first c verb (quoted_params params) (all-is_plain (c ∷ verb) k))
      (scan_all-quoted_params params [] (c ∷ verb) n)

-- A command that is built is at most 900 bytes, holds nothing that breaks a line, and is read back
-- by the configuration lexer as exactly the verb and the parameters that were given, whatever
-- spaces, quotes, backslashes, `#` or `;` the parameters hold.
pub build_command-IsSent :
    (verb : Text) (params : List Text) (line : Text)
    → build_command verb params ≡ ok line
    → IsSent verb params line
unfolding build_command
build_command-IsSent verb params line h =
    elim (Bool-cases (is_empty verb || not (all is_verb_byte verb))) [
      | inl bad ↦ cc (rw bad at h)
      | inr good ↦
          let (built, rest, made) =
            ok_parts (λ l. check_line_length l >> ok l) (append_params verb params)
              (rw (good, if◌then◌else◌) at h) in
          let (checked, same, passed) = ok_parts (λ _. ok built) (check_line_length built) rest in
          let is_line : built ≡ line = ok-injective same in
          let bounds = check_line_length-ok line (rw is_line at passed) in
          record {
            short = bounds.0;
            one_line = bounds.1;
            reads_back = λ n.
                rw (← is_line, append_params-quoted params verb built made)
                  (tokenize_command verb params n (ground arith) (ground arith));
          }
    ]

-- ===== src/Ovpn/Lexer/Tokens.antt =====
-- How `tokenize` of shared/src/ovpn/lexer.rs reads the two spellings of an argument: bare, and in
-- double quotes with a backslash before each quote and backslash.
use thisconnect.Prelude.{
  ℕ, ◌≡◌, refl, sym, ap, ◌∙◌, inl, inr, Bool, true, false, not, ◌||◌, some, List, [], ◌∷◌, ◌++◌,
  append-nil, append_assoc, arith, ◌==◌, Bool-cases, and-left, and-right, ok, all,
}
use thisconnect.Prelude.Text.{Text, is_whitespace}
use thisconnect.Mgmt.Escape.{escape_char, escape_body}
use thisconnect.Ovpn.Lexer.{Lexing, scan, scan_all, finish_tokens, fresh}

-- In a token outside quotes, and inside double quotes.
abbrev pub at_token : List Text → Text → Lexing
at_token tokens current = record {
  tokens = tokens;
  current = current;
  has_token = true;
  in_single = false;
  in_double = false;
  escaped = false;
}

abbrev in_quote : List Text → Text → Lexing
in_quote tokens current = record (at_token tokens current) { in_double = true }

-- A character that means itself outside quotes.
abbrev pub is_plain : ℕ → Bool
is_plain c =
    not (c == b'\\' || c == b'\'' || c == b'"' || c == b'#' || c == b';' || is_whitespace c)

scan_one :
    (c : ℕ) (cs : Text) (st st' : Lexing)
    → scan c st ≡ some st'
    → scan_all (c ∷ cs) st ≡ scan_all cs st'
unfolding scan_all
scan_one c cs st st' h = rw (h, scan_all)

scan_plain :
    (c : ℕ) (ts : List Text) (w : Text)
    → is_plain c ≡ true
    → scan c (at_token ts w) ≡ some (at_token ts (w ++ c ∷ []))
unfolding scan is_whitespace
scan_plain c ts w plain = ground arith

scan_first :
    (c : ℕ)
    → is_plain c ≡ true
    → (ts : List Text) → scan c (record fresh { tokens = ts }) ≡ some (at_token ts (c ∷ []))
unfolding scan is_whitespace
scan_first c plain ts = ground arith

scan_double :
    (c : ℕ) (ts : List Text) (w : Text)
    → (c == b'"' || c == b'\\') ≡ false
    → scan c (in_quote ts w) ≡ some (in_quote ts (w ++ c ∷ []))
unfolding scan is_whitespace
scan_double c ts w other = ground arith

-- A run of plain characters goes into the current token.
pub scan_all-plain :
    (t rest : Text) (ts : List Text) (w : Text)
    → all is_plain t ≡ true
    → scan_all (t ++ rest) (at_token ts w) ≡ scan_all rest (at_token ts (w ++ t))
scan_all-plain [] rest ts w plain = rw append-nil
scan_all-plain (c ∷ t) rest ts w plain =
    scan_one c (t ++ rest) (at_token ts w) (at_token ts (w ++ c ∷ []))
      (scan_plain c ts w (and-left _ _ plain))
    ∙ scan_all-plain t rest ts (w ++ c ∷ []) (and-right _ _ plain)
    ∙ ap (λ (v : Text). scan_all rest (at_token ts v)) (append_assoc w (c ∷ []) t)

scan_all-escape_char :
    (c : ℕ) (rest : Text) (ts : List Text) (w : Text)
    → scan_all (escape_char c ++ rest) (in_quote ts w) ≡ scan_all rest (in_quote ts (w ++ c ∷ []))
unfolding escape_char
scan_all-escape_char c rest ts w = elim (Bool-cases (c == b'"' || c == b'\\')) [
  | inl special ↦ rw special (
      scan_one b'\\' (c ∷ rest) (in_quote ts w) (record (in_quote ts w) { escaped = true })
        (unfold scan in refl)
      ∙ scan_one c rest (record (in_quote ts w) { escaped = true }) (in_quote ts (w ++ c ∷ []))
          (unfold scan in refl))
  | inr other ↦
      rw other
        (scan_one c rest (in_quote ts w) (in_quote ts (w ++ c ∷ [])) (scan_double c ts w other))
]

scan_all-escape_body :
    (t rest : Text) (ts : List Text) (w : Text)
    → scan_all (escape_body t ++ rest) (in_quote ts w) ≡ scan_all rest (in_quote ts (w ++ t))
unfolding escape_body
scan_all-escape_body [] rest ts w = rw append-nil
scan_all-escape_body (c ∷ t) rest ts w =
    ap (λ (v : Text). scan_all v (in_quote ts w))
      (append_assoc (escape_char c) (escape_body t) rest)
    ∙ scan_all-escape_char c (escape_body t ++ rest) ts w
    ∙ scan_all-escape_body t rest ts (w ++ c ∷ [])
    ∙ ap (λ (v : Text). scan_all rest (in_quote ts v)) (append_assoc w (c ∷ []) t)

space_ends_token :
    (rest : Text) (ts : List Text) (w : Text)
    → scan_all (b' ' ∷ rest) (at_token ts w)
      ≡ scan_all rest (record fresh { tokens = ts ++ w ∷ [] })
space_ends_token rest ts w =
    scan_one b' ' rest (at_token ts w) (record fresh { tokens = ts ++ w ∷ [] })
      (unfold scan is_whitespace in refl)

-- A space, then an argument in double quotes: the token before ends, and the argument is the next.
pub scan_all-quoted :
    (t rest : Text) (ts : List Text) (w : Text)
    → scan_all (b' ' ∷ b'"' ∷ (escape_body t ++ (b'"' ∷ rest))) (at_token ts w)
      ≡ scan_all rest (at_token (ts ++ w ∷ []) t)
scan_all-quoted t rest ts w =
    space_ends_token (b'"' ∷ (escape_body t ++ (b'"' ∷ rest))) ts w
    ∙ scan_one b'"' (escape_body t ++ (b'"' ∷ rest)) (record fresh { tokens = ts ++ w ∷ [] })
        (in_quote (ts ++ w ∷ []) []) (unfold scan in refl)
    ∙ scan_all-escape_body t (b'"' ∷ rest) (ts ++ w ∷ []) []
    ∙ scan_one b'"' rest (in_quote (ts ++ w ∷ []) t) (at_token (ts ++ w ∷ []) t)
        (unfold scan in refl)

-- A space, then a bare argument of plain characters.
pub scan_all-bare :
    (c : ℕ) (t rest : Text) (ts : List Text) (w : Text)
    → all is_plain (c ∷ t) ≡ true
    → scan_all (b' ' ∷ c ∷ (t ++ rest)) (at_token ts w)
      ≡ scan_all rest (at_token (ts ++ w ∷ []) (c ∷ t))
scan_all-bare c t rest ts w plain =
    space_ends_token (c ∷ (t ++ rest)) ts w
    ∙ scan_one c (t ++ rest) (record fresh { tokens = ts ++ w ∷ [] })
        (at_token (ts ++ w ∷ []) (c ∷ [])) (scan_first c (and-left _ _ plain) (ts ++ w ∷ []))
    ∙ scan_all-plain t rest (ts ++ w ∷ []) (c ∷ []) (and-right _ _ plain)

-- The first token of a line.
pub scan_all_first :
    (c : ℕ) (t rest : Text)
    → all is_plain (c ∷ t) ≡ true
    → scan_all (c ∷ (t ++ rest)) fresh ≡ scan_all rest (at_token [] (c ∷ t))
scan_all_first c t rest plain =
    scan_one c (t ++ rest) fresh (at_token [] (c ∷ [])) (scan_first c (and-left _ _ plain) [])
    ∙ scan_all-plain t rest [] (c ∷ []) (and-right _ _ plain)

pub finish_at_token :
    (ts : List Text) (w : Text) (n : ℕ)
    → finish_tokens (scan_all [] (at_token ts w)) n ≡ ok (ts ++ w ∷ [])
unfolding finish_tokens scan_all
finish_at_token ts w n = refl

-- Behind an escaped character that has started no token.
abbrev behind_escape : List Text → Text → Lexing
behind_escape tokens current = record fresh { tokens = tokens; current = current }

scan_blank :
    (c : ℕ) (ts : List Text) (w : Text)
    → is_whitespace c ≡ true
    → scan c (behind_escape ts w) ≡ some (behind_escape ts w)
unfolding scan is_whitespace
scan_blank c ts w blank = ground (arith, blank)

scan_all-blanks :
    (blanks rest : Text) (ts : List Text) (w : Text)
    → all is_whitespace blanks ≡ true
    → scan_all (blanks ++ rest) (behind_escape ts w) ≡ scan_all rest (behind_escape ts w)
scan_all-blanks [] rest ts w blank = refl
scan_all-blanks (c ∷ blanks) rest ts w blank =
    scan_one c (blanks ++ rest) (behind_escape ts w) (behind_escape ts w)
      (scan_blank c ts w (and-left _ _ blank))
    ∙ scan_all-blanks blanks rest ts w (and-right _ _ blank)

scan_glued :
    (c d : ℕ) (ts : List Text)
    → is_plain d ≡ true
    → scan d (behind_escape ts (c ∷ [])) ≡ some (at_token ts (c ∷ d ∷ []))
unfolding scan is_whitespace
scan_glued c d ts plain = ground (arith, plain)

scan_all_escaped :
    (c : ℕ) (rest : Text) (ts : List Text)
    → scan_all (b'\\' ∷ c ∷ rest) (record fresh { tokens = ts })
      ≡ scan_all rest (behind_escape ts (c ∷ []))
scan_all_escaped c rest ts =
    scan_one b'\\' (c ∷ rest) (record fresh { tokens = ts })
      (record fresh { tokens = ts; escaped = true }) (unfold scan in refl)
    ∙ scan_one c rest (record fresh { tokens = ts; escaped = true }) (behind_escape ts (c ∷ []))
        (unfold scan in refl)

-- Where the lexer stands outside a token, behind any tokens, an escaped character begins none: any
-- blanks behind it are skipped, and the word of plain characters that ends the line is glued to it,
-- as one token.
pub escaped_start_is_glued :
    (c d : ℕ) (blanks word : Text) (ts : List Text) (n : ℕ)
    → all is_whitespace blanks ≡ true
    → all is_plain (d ∷ word) ≡ true
    → finish_tokens (scan_all (b'\\' ∷ c ∷ (blanks ++ (d ∷ word))) (record fresh { tokens = ts })) n
      ≡ ok (ts ++ (c ∷ d ∷ word) ∷ [])
escaped_start_is_glued c d blanks word ts n blank plain =
    ap (λ st. finish_tokens st n)
      (scan_all_escaped c (blanks ++ (d ∷ word)) ts
        ∙ scan_all-blanks blanks (d ∷ word) ts (c ∷ []) blank
        ∙ scan_one d word (behind_escape ts (c ∷ [])) (at_token ts (c ∷ d ∷ []))
            (scan_glued c d ts (and-left _ _ plain))
        ∙ ap (λ (v : Text). scan_all v (at_token ts (c ∷ d ∷ []))) (sym (append-nil word))
        ∙ scan_all-plain word [] ts (c ∷ d ∷ []) (and-right _ _ plain))
    ∙ finish_at_token ts (c ∷ d ∷ word) n

-- ===== src/Ovpn/Lexer/Limited.antt =====
-- The items of `lex` of shared/src/ovpn/lexer.rs stay within its limits.
use thisconnect.Prelude.{
  ℕ, ◌+◌, ◌≤◌, ◌≡◌, refl, subst, inl, inr, Bool, true, false, ◌||◌, Option, none, some, List, [],
  ◌∷◌, arith, ltb, ◌==◌, if◌then◌else◌, Result, ok, err, ok-injective, is_empty, any, All, ◌>>=◌,
  ok_parts, if_parts,
}
use thisconnect.Prelude.Text.{Text, trim, byte_len, lines}
use thisconnect.Ovpn.Error.{
  ValidationError, max_inline_bytes, max_inline_blocks, max_line_bytes, unterminated_inline_block,
}
use thisconnect.Ovpn.Lexer.{
  Item, OpenBlock, LexState, used, lex_inside, push_directive, lex_outside, lex_line, lex_lines,
  lex, open_tag, tokenize, is_comment,
}
use thisconnect.Ovpn.Lexer.Bounds.{
  IsLimited, count_blocks, Fits, OpenFits, lex_inside-Fits, push_directive-Fits,
}

no_lines : used [] ≤ max_inline_bytes
unfolding used
no_lines = omega arith

passed_on :
    {A : Type 0} (b : Bool) (e : ValidationError) (m : Result ValidationError A) (y : A)
    → (if b then err e else m) ≡ ok y
    → m ≡ ok y
passed_on true e m y h = cc
passed_on false e m y h = h

lex_outside-Fits :
    (st st' : LexState) (line : ℕ) (raw : Text)
    → lex_outside st line raw ≡ ok st'
    → Fits st
    → Fits st'
unfolding lex_outside
lex_outside-Fits st st' line raw h f =
    elim (if_parts (is_empty (trim raw) || is_comment (trim raw)) _ _ _ h) [
      | inl (_, k) ↦ subst Fits (ok-injective k) f
      | inr (_, k) ↦
          let (tag, k₁, _) =
            ok_parts _ (open_tag (trim raw) line)
              (passed_on (ltb max_line_bytes (byte_len raw)) _ _ st' k) in
          go tag k₁
    ]
  where
    go :
        (m : Option Text)
        → ◌≡◌ {A = Result ValidationError LexState}
            (elim m [
              | some t ↦
                  ok (record st { current = some (record { start = line; tag = t; body = [] }) })
              | none ↦ (do tokens ← tokenize raw line; push_directive st line tokens)
            ])
            (ok st')
        → Fits st'
    go (some t) k =
        subst Fits (ok-injective k)
          (record { limited = f.limited; counted = f.counted; few = f.few; fitting = no_lines })
    go none k =
        let (tokens, k₁, _) = ok_parts _ (tokenize raw line) k in
        push_directive-Fits st st' line tokens k₁ f

lex_line-Fits :
    (st st' : LexState) (line : ℕ) (raw : Text) → lex_line st line raw ≡ ok st' → Fits st → Fits st'
unfolding lex_line
lex_line-Fits st st' line raw h f =
    go st.current f.fitting (passed_on (any (λ c. c == 0) raw) _ _ st' h)
  where
    go :
        (m : Option OpenBlock)
        → OpenFits m
        → ◌≡◌ {A = Result ValidationError LexState}
            (elim m [ some b ↦ lex_inside st b raw | none ↦ lex_outside st line raw ])
            (ok st')
        → Fits st'
    go (some b) small k = lex_inside-Fits st st' b raw k f small
    go none small k = lex_outside-Fits st st' line raw k f

lex_lines-Fits :
    (st st' : LexState) (line : ℕ) (raws : List Text)
    → lex_lines st line raws ≡ ok st'
    → Fits st
    → Fits st'
unfolding lex_lines
lex_lines-Fits st st' line [] h f = subst Fits (ok-injective h) f
lex_lines-Fits st st' line (raw ∷ raws) h f =
    let (next, h₁, taken) = ok_parts _ (lex_line st line raw) h in
    lex_lines-Fits next st' (line + 1) raws h₁ (lex_line-Fits st next line raw taken f)

ended :
    (m : Option OpenBlock) (items found : List Item)
    → ◌≡◌ {A = Result ValidationError (List Item)}
        (elim m [ some b ↦ err (unterminated_inline_block b.start b.tag) | none ↦ ok items ])
        (ok found)
    → items ≡ found
ended none items found h = ok-injective h
ended (some b) items found h = cc

-- A text that lexes gives at most 16 inline blocks, none with a body over 128 KiB, and no directive
-- with more than 16 arguments.
pub lex-IsLimited :
    (input : Text) (first_line : ℕ) (items : List Item)
    → lex input first_line ≡ ok items
    → All IsLimited items × (count_blocks items ≤ max_inline_blocks)
unfolding lex
lex-IsLimited input first_line items h =
    let (st, h₁, taken) = ok_parts _ (lex_lines _ first_line (lines input)) h in
    let f =
      lex_lines-Fits _ st first_line (lines input) taken
        (record { limited = tt; counted = refl; few = omega arith; fitting = tt }) in
    subst (λ l. All IsLimited l × (count_blocks l ≤ max_inline_blocks))
      (ended st.current st.items items h₁) (f.limited, omega (arith, f.counted, f.few))

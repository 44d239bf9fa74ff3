-- ===== src/Ovpn/Lexer.antt =====
-- shared/src/ovpn/lexer.rs: comments, quoting and inline blocks.
pub mod Tokens
pub mod Bounds
pub mod Limited
use thisconnect.Prelude.{
  ◌>>=◌, ℕ, ◌+◌, ◌-◌, ◌/◌, ◌<◌, Bool, true, false, not, ◌&&◌, ◌||◌, Option, none, some, List, [],
  ◌∷◌, ◌++◌, ltb, ◌==◌, if◌then◌else◌, Result, ok, err, length, is_empty, all, any,
}
use thisconnect.Prelude.Text.{
  Text, codes, text_eq, strip_prefix, starts_with, strip_suffix_char, is_ascii_alphanumeric,
  to_ascii_lowercase, is_whitespace, trim, byte_len, lines,
}
use thisconnect.Ovpn.Error.{
  ValidationError, line_too_long, nul_byte, unterminated_quote, too_many_arguments,
  too_many_inline_blocks, inline_block_too_large, unterminated_inline_block,
  unexpected_inline_close, forbidden_inline_tag, max_line_bytes, max_inline_bytes,
  max_inline_blocks, max_args,
}

pub record RawDirective : Type 0 where
  pub line : ℕ
  pub name : Text
  pub args : List Text

pub record RawBlock : Type 0 where
  pub line : ℕ
  pub tag : Text
  pub body : Text

pub data Item : Type 0 where
  directive : RawDirective → Item
  block : RawBlock → Item

-- The local variables of `tokenize`.
pub record Lexing : Type 0 where
  pub tokens : List Text
  pub current : Text
  pub has_token : Bool
  pub in_single : Bool
  pub in_double : Bool
  pub escaped : Bool

-- the state for the next character, or `none` at `break`
unfoldable pub scan : ℕ → Lexing → Option Lexing
unfolding is_whitespace
scan c st =
    let bare = not st.in_single && not st.in_double in
    if st.escaped
    then some (record st { current = st.current ++ c ∷ []; escaped = false })
    else if c == b'\\' && not st.in_single
    then some (record st { escaped = true })
    else if c == b'\'' && not st.in_double
    then some (record st { in_single = not st.in_single; has_token = true })
    else if c == b'"' && not st.in_single
    then some (record st { in_double = not st.in_double; has_token = true })
    else if (c == b'#' || c == b';') && bare
    then none
    else if is_whitespace c && bare
    then some (
        if st.has_token
        then record st { tokens = st.tokens ++ st.current ∷ []; current = []; has_token = false }
        else st)
    else some (record st { current = st.current ++ c ∷ []; has_token = true })

-- the loop over `line.chars()`
unfoldable pub scan_all : Text → Lexing → Lexing
scan_all [] st = st
scan_all (c ∷ cs) st = elim (scan c st) [ none ↦ st | some st' ↦ scan_all cs st' ]

unfoldable pub finish_tokens : Lexing → ℕ → Result ValidationError (List Text)
finish_tokens st line_no =
    if st.in_single || st.in_double || st.escaped
    then err (unterminated_quote line_no)
    else if st.has_token
    then ok (st.tokens ++ st.current ∷ [])
    else ok st.tokens

abbrev pub fresh : Lexing
fresh = record {
  tokens = [];
  current = [];
  has_token = false;
  in_single = false;
  in_double = false;
  escaped = false;
}

unfoldable pub tokenize : Text → ℕ → Result ValidationError (List Text)
tokenize line line_no = finish_tokens (scan_all line fresh) line_no

unfoldable pub is_comment : Text → Bool
unfolding starts_with
is_comment trimmed = starts_with (codes "#") trimmed || starts_with (codes ";") trimmed

-- `.strip_prefix('<').and_then(|rest| rest.strip_suffix('>')).unwrap_or("")`
unfoldable pub angle_inner : Text → Text
unfolding strip_prefix strip_suffix_char
angle_inner trimmed = elim (strip_prefix (codes "<") trimmed) [
  | none ↦ []
  | some rest ↦ elim (strip_suffix_char b'>' rest) [ none ↦ [] | some inner ↦ inner ]
]

abbrev pub is_tag_char : ℕ → Bool
is_tag_char c = is_ascii_alphanumeric c || c == b'-'

unfoldable pub open_tag : Text → ℕ → Result ValidationError (Option Text)
unfolding angle_inner starts_with strip_prefix to_ascii_lowercase
open_tag trimmed line =
    if not (starts_with (codes "<") trimmed)
    then ok none
    else elim (strip_prefix (codes "/") (angle_inner trimmed)) [
      | some closing ↦ err (unexpected_inline_close line (to_ascii_lowercase closing))
      | none ↦
          let tag = to_ascii_lowercase (angle_inner trimmed) in
          if is_empty tag || not (all is_tag_char tag)
          then err (forbidden_inline_tag line trimmed)
          else ok (some tag)
    ]

unfoldable pub close_tag : Text → Option Text
unfolding trim strip_prefix strip_suffix_char to_ascii_lowercase
close_tag raw_line = elim (strip_prefix (codes "</") (trim raw_line)) [
  | none ↦ none
  | some rest ↦ elim (strip_suffix_char b'>' rest) [
    | none ↦ none
    | some tag ↦ some (to_ascii_lowercase tag)
  ]
]

-- `body.join("\n")`, with a line feed behind it unless it is empty
unfoldable pub join_lines : List Text → Text
join_lines [] = []
join_lines (l ∷ []) = l
join_lines (l ∷ m ∷ ls) = l ++ (b'\n' ∷ join_lines (m ∷ ls))

unfoldable pub finish_block : ℕ → Text → List Text → RawBlock
unfolding join_lines
finish_block line tag body =
    let text = join_lines body in
    record { line = line; tag = tag; body = if is_empty text then text else text ++ b'\n' ∷ [] }

-- `body.iter().map(|l| l.len() + 1).sum()`
unfoldable pub used : List Text → ℕ
used [] = 0
used (l ∷ ls) = byte_len l + 1 + used ls

pub record OpenBlock : Type 0 where
  pub start : ℕ
  pub tag : Text
  pub body : List Text

-- The local variables of `lex`.
pub record LexState : Type 0 where
  pub items : List Item
  pub current : Option OpenBlock
  pub blocks : ℕ

-- a line of an open block that does not close it
unfoldable pub extend_block : LexState → OpenBlock → Text → Result ValidationError LexState
unfolding used
extend_block st b raw =
    let body = b.body ++ raw ∷ [] in
    if ltb max_inline_bytes (used body)
    then err (inline_block_too_large b.start b.tag max_inline_bytes)
    else ok (record st { current = some (record b { body = body }) })

unfoldable pub close_block : LexState → OpenBlock → Result ValidationError LexState
unfolding finish_block
close_block st b =
    if ltb max_inline_blocks (st.blocks + 1)
    then err (too_many_inline_blocks max_inline_blocks)
    else ok (record {
      items = st.items ++ block (finish_block b.start b.tag b.body) ∷ [];
      current = none;
      blocks = st.blocks + 1;
    })

unfoldable pub lex_inside : LexState → OpenBlock → Text → Result ValidationError LexState
unfolding extend_block close_block text_eq
lex_inside st b raw = elim (close_tag raw) [
  | none ↦ extend_block st b raw
  | some closing ↦ if text_eq closing b.tag then close_block st b else extend_block st b raw
]

unfoldable pub push_directive : LexState → ℕ → List Text → Result ValidationError LexState
unfolding to_ascii_lowercase
push_directive st line [] = ok st
push_directive st line (name ∷ args) =
    if ltb max_args (length args)
    then err (too_many_arguments line max_args)
    else ok (record st {
      items =
          st.items
          ++ directive (record { line = line; name = to_ascii_lowercase name; args = args }) ∷ [];
    })

unfoldable pub lex_outside : LexState → ℕ → Text → Result ValidationError LexState
unfolding is_comment open_tag push_directive tokenize trim
lex_outside st line raw =
    let trimmed = trim raw in
    if is_empty trimmed || is_comment trimmed
    then ok st
    else if ltb max_line_bytes (byte_len raw)
    then err (line_too_long line max_line_bytes)
    else (do
      tag ← open_tag trimmed line
      elim tag [
        | some t ↦ ok (record st { current = some (record { start = line; tag = t; body = [] }) })
        | none ↦ (do tokens ← tokenize raw line; push_directive st line tokens)
      ])

-- one turn of the loop over the lines
unfoldable pub lex_line : LexState → ℕ → Text → Result ValidationError LexState
lex_line st line raw =
    if any (λ c. c == 0) raw
    then err (nul_byte line)
    else elim st.current [ some b ↦ lex_inside st b raw | none ↦ lex_outside st line raw ]

unfoldable pub lex_lines : LexState → ℕ → List Text → Result ValidationError LexState
lex_lines st line [] = ok st
lex_lines st line (raw ∷ rest) = do st' ← lex_line st line raw; lex_lines st' (line + 1) rest

unfoldable pub lex : Text → ℕ → Result ValidationError (List Item)
unfolding lines
lex input first_line = do
  st ← lex_lines (record { items = []; current = none; blocks = 0 }) first_line (lines input)
  elim st.current [ some b ↦ err (unterminated_inline_block b.start b.tag) | none ↦ ok st.items ]

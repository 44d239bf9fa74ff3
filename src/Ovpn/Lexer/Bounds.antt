-- ===== src/Ovpn/Lexer/Bounds.antt =====
-- The limits that `lex` of shared/src/ovpn/lexer.rs holds its items to.
use thisconnect.Prelude.{
  ℕ, suc, ◌+◌, ◌≤◌, ◌≡◌, refl, subst, inl, inr, Bool, true, false, Option, none, some, List, [],
  ◌∷◌, ◌++◌, arith, ltb, if◌then◌else◌, Result, ok, err, ok-injective, length, is_empty, All,
  All-append, if_parts,
}
use thisconnect.Prelude.Text.{Text, text_eq, byte_len}
use thisconnect.Ovpn.Error.{ValidationError, max_inline_bytes, max_inline_blocks, max_args}
use thisconnect.Ovpn.Lexer.{
  Item, directive, block, OpenBlock, LexState, join_lines, finish_block, used, extend_block,
  close_block, lex_inside, push_directive, close_tag,
}

byte_len-append : (a b : Text) → byte_len (a ++ b) ≡ byte_len a + byte_len b
unfolding byte_len
byte_len-append [] b = omega arith
byte_len-append (c ∷ a) b = omega (arith, byte_len-append a b)

newline_width : (t : Text) → byte_len (b'\n' ∷ t) ≡ 1 + byte_len t
unfolding byte_len
newline_width t = omega arith

byte_len-join_lines :
    (l : Text) (ls : List Text) → byte_len (join_lines (l ∷ ls)) + 1 ≤ used (l ∷ ls)
unfolding join_lines used
byte_len-join_lines l [] = omega arith
byte_len-join_lines l (m ∷ ls) = omega (
  arith,
  byte_len-append l (b'\n' ∷ join_lines (m ∷ ls)),
  newline_width (join_lines (m ∷ ls)),
  byte_len-join_lines m ls,
)

no_bytes : byte_len [] ≤ 0
unfolding byte_len
no_bytes = omega arith

one_newline : byte_len (b'\n' ∷ []) ≡ 1
unfolding byte_len
one_newline = refl

with_newline : (t : Text) → byte_len (if is_empty t then t else t ++ b'\n' ∷ []) ≤ byte_len t + 1
with_newline [] = omega arith
with_newline (c ∷ t) = omega (arith, byte_len-append (c ∷ t) (b'\n' ∷ []), one_newline)

byte_len-finish_block :
    (line : ℕ) (tag : Text) (body : List Text)
    → byte_len ((finish_block line tag body).body) ≤ used body
unfolding finish_block join_lines used
byte_len-finish_block line tag [] = no_bytes
byte_len-finish_block line tag (l ∷ ls) =
    omega (arith, with_newline (join_lines (l ∷ ls)), byte_len-join_lines l ls)

-- An item within its limits.
abbrev pub IsLimited : Item → Type 0
IsLimited (directive d) = length d.args ≤ max_args
IsLimited (block b) = byte_len b.body ≤ max_inline_bytes

abbrev pub count_blocks : List Item → ℕ
count_blocks [] = 0
count_blocks (directive d ∷ items) = count_blocks items
count_blocks (block b ∷ items) = suc (count_blocks items)

count_blocks-append :
    (xs ys : List Item) → count_blocks (xs ++ ys) ≡ count_blocks xs + count_blocks ys
count_blocks-append [] ys = omega arith
count_blocks-append (directive d ∷ xs) ys = count_blocks-append xs ys
count_blocks-append (block b ∷ xs) ys = omega (arith, count_blocks-append xs ys)

abbrev pub OpenFits : Option OpenBlock → Type 0
OpenFits none = Unit
OpenFits (some b) = used b.body ≤ max_inline_bytes

pub record Fits (st : LexState) : Type 0 where
  pub limited : All IsLimited st.items
  pub counted : count_blocks st.items ≡ st.blocks
  pub few : st.blocks ≤ max_inline_blocks
  pub fitting : OpenFits st.current

passed :
    {A : Type 0} (b : Bool) (e : ValidationError) (x y : A)
    → ◌≡◌ {A = Result ValidationError A} (if b then err e else ok x) (ok y)
    → (b ≡ false) × (x ≡ y)
passed true e x y h = cc
passed false e x y h = (refl, ok-injective h)

at_most : (limit n : ℕ) → ltb limit n ≡ false → n ≤ limit
at_most limit n h = ground arith

extend_block-Fits :
    (st st' : LexState) (b : OpenBlock) (raw : Text)
    → extend_block st b raw ≡ ok st'
    → Fits st
    → Fits st'
unfolding extend_block
extend_block-Fits st st' b raw h f =
    let (small, same) = passed (ltb max_inline_bytes (used (b.body ++ raw ∷ []))) _ _ st' h in
    subst Fits same (record {
      limited = f.limited;
      counted = f.counted;
      few = f.few;
      fitting = at_most max_inline_bytes (used (b.body ++ raw ∷ [])) small;
    })

close_block-Fits :
    (st st' : LexState) (b : OpenBlock)
    → close_block st b ≡ ok st'
    → Fits st
    → used b.body ≤ max_inline_bytes
    → Fits st'
unfolding close_block
close_block-Fits st st' b h f small =
    let (few, same) = passed (ltb max_inline_blocks (st.blocks + 1)) _ _ st' h in
    let closed : Item = block (finish_block b.start b.tag b.body) in
    subst Fits same (record {
      limited =
          All-append IsLimited st.items (closed ∷ []) f.limited
            (omega (arith, byte_len-finish_block b.start b.tag b.body, small), tt);
      counted = omega (arith, count_blocks-append st.items (closed ∷ []), f.counted);
      few = at_most max_inline_blocks (st.blocks + 1) few;
      fitting = tt;
    })

pub lex_inside-Fits :
    (st st' : LexState) (b : OpenBlock) (raw : Text)
    → lex_inside st b raw ≡ ok st'
    → Fits st
    → used b.body ≤ max_inline_bytes
    → Fits st'
unfolding lex_inside
lex_inside-Fits st st' b raw h f small = go (close_tag raw) h
  where
    go :
        (m : Option Text)
        → ◌≡◌ {A = Result ValidationError LexState}
            (elim m [
              | none ↦ extend_block st b raw
              | some closing ↦
                  if text_eq closing b.tag then close_block st b else extend_block st b raw
            ])
            (ok st')
        → Fits st'
    go none k = extend_block-Fits st st' b raw k f
    go (some closing) k =
        elim (if_parts (text_eq closing b.tag) (close_block st b) (extend_block st b raw) _ k) [
          | inl (_, k') ↦ close_block-Fits st st' b k' f small
          | inr (_, k') ↦ extend_block-Fits st st' b raw k' f
        ]

pub push_directive-Fits :
    (st st' : LexState) (line : ℕ) (tokens : List Text)
    → push_directive st line tokens ≡ ok st'
    → Fits st
    → Fits st'
unfolding push_directive
push_directive-Fits st st' line [] h f = subst Fits (ok-injective h) f
push_directive-Fits st st' line (name ∷ args) h f =
    let (short, same) = passed (ltb max_args (length args)) _ _ st' h in
    subst Fits same (record {
      limited =
          All-append IsLimited st.items _ f.limited (at_most max_args (length args) short, tt);
      counted = omega (arith, count_blocks-append st.items (directive _ ∷ []), f.counted);
      few = f.few;
      fitting = f.fitting;
    })

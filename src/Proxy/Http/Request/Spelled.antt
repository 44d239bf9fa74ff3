-- ===== src/Proxy/Http/Request/Spelled.antt =====
-- Where the headers come from that proxy/src/http.rs accepts.
use thisconnect.Prelude.{
  guarded, ◌≡◌, refl, sym, ap, subst, ◌∙◌, ◌||◌, not, Option, none, some, List, [], ◌∷◌, ◌++◌,
  append-nil, append_assoc, leb, ltb, ◌==◌, Result, ok, err, ok-injective, length, is_empty, all,
  any, ok_parts,
}
use thisconnect.Prelude.Text.{Text, codes, starts_with, byte_len}
use thisconnect.Prelude.Split.{split_once}
use thisconnect.Prelude.Splits.{split_once-splits}
use thisconnect.Proxy.Http.{max_request_line, max_header_count, malformed, HttpError}
use thisconnect.Proxy.Http.Request.{
  Header, Head, is_tchar, is_control, trim_blanks, judge_header, parse_header, push_header,
  parse_headers, reject_ambiguous_framing, parse_request_line, parse_lines, parse_head, split_crlf,
}
use thisconnect.Proxy.Http.Request.Line.{join_crlf, join_crlf-split_crlf}

-- A line that spells a header: its name, a colon, and its value between blanks.
abbrev pub SpellsOne : Text → Header → Type 0
SpellsOne line h =
    (value : Text) × (line ≡ h.name ++ (b':' ∷ value)) × (h.value ≡ trim_blanks value)

-- Lines that spell headers, one each, in order.
abbrev pub Spells : List Text → List Header → Type 0
Spells [] [] = Unit
Spells (line ∷ lines) (h ∷ hs) = SpellsOne line h × Spells lines hs
Spells _ _ = ⊥

judge_header-Spells :
    (name value : Text) (h : Header)
    → judge_header name value ≡ ok h
    → (h.name ≡ name) × (h.value ≡ trim_blanks value)
unfolding judge_header
judge_header-Spells name value h k =
    let (_, k₁) = guarded (is_empty name || not (all is_tchar name)) _ _ h k in
    let (_, k₂) = guarded (any is_control (trim_blanks value)) _ _ h k₁ in
    let same = sym (ok-injective k₂) in (ap (λ x. x.name) same, ap (λ x. x.value) same)

parse_header-Spells : (line : Text) (h : Header) → parse_header line ≡ ok h → SpellsOne line h
unfolding parse_header
parse_header-Spells line h k = go (split_once b':' line) refl k
  where
    go :
        (o : Option (Text × Text))
        → split_once b':' line ≡ o
        → ◌≡◌ {A = Result HttpError Header}
            (elim o [
              | none ↦ err (malformed (codes "header without a colon"))
              | some (name, value) ↦ judge_header name value
            ])
            (ok h)
        → SpellsOne line h
    go none s e = cc
    go (some (name, value)) s e =
        let (named, valued) = judge_header-Spells name value h e in
        (
          value,
          split_once-splits b':' line name value s
              ∙ ap (λ (t : Text). t ++ (b':' ∷ value)) (sym named),
          valued,
        )

push_header-Spells :
    (headers more : List Header) (line : Text)
    → push_header headers line ≡ ok more
    → (h : Header) × (more ≡ headers ++ (h ∷ [])) × SpellsOne line h
unfolding push_header
push_header-Spells headers more line k =
    let (_, k₁) = guarded (any (λ c. c == b'\r') line || any (λ c. c == b'\n') line) _ _ more k in
    let (_, k₂) =
      guarded (starts_with (codes " ") line || starts_with (b'\t' ∷ []) line) _ _ more k₁ in
    let (_, k₃) = guarded (leb max_header_count (length headers)) _ _ more k₂ in
    let (h, same, parsed) = ok_parts _ (parse_header line) k₃ in
    (h, sym (ok-injective same), parse_header-Spells line h parsed)

parse_headers-Spells :
    (headers more : List Header) (lines : List Text)
    → parse_headers headers lines ≡ ok more
    → (hs : List Header) × (more ≡ headers ++ hs) × Spells lines hs
unfolding parse_headers
parse_headers-Spells headers more [] k = ([], sym (ok-injective k) ∙ sym (append-nil headers), tt)
parse_headers-Spells headers more (line ∷ lines) k =
    let (next, k₁, pushed) = ok_parts _ (push_header headers line) k in
    let (h, added, spelled) = push_header-Spells headers next line pushed in
    let (hs, whole, rest) = parse_headers-Spells next more lines k₁ in
    (h ∷ hs, whole ∙ ap (λ l. l ++ hs) added ∙ append_assoc headers (h ∷ []) hs, (spelled, rest))

parse_lines-Spells :
    (line : Text) (lines : List Text) (h : Head)
    → parse_lines line lines ≡ ok h
    → Spells lines h.headers
unfolding parse_lines
parse_lines-Spells line lines h k =
    let (_, k₁) = guarded (ltb max_request_line (byte_len line)) _ _ h k in
    let (target, k₂, _) = ok_parts _ (parse_request_line line) k₁ in
    let (headers, k₃, read) = ok_parts _ (parse_headers [] lines) k₂ in
    let (u, k₄, _) = ok_parts _ (reject_ambiguous_framing headers) k₃ in
    let (hs, whole, spelled) = parse_headers-Spells [] headers lines read in
    subst (Spells lines) (sym whole ∙ ap (λ (x : Head). x.headers) (ok-injective k₄)) spelled

-- The lines of a head: the first, and behind it one for each header, in order.
pub record HasLines (s : Text) (h : Head) : Type 0 where
  pub first : Text
  pub lines : List Text
  pub whole : s ≡ join_crlf (first ∷ lines)
  pub spelled : Spells lines h.headers

split-HasLines :
    (ls : List Text) (s : Text) (h : Head)
    → join_crlf ls ≡ s
    → ◌≡◌ {A = Result HttpError Head}
        (elim ls [ [] ↦ parse_lines [] [] | request_line ∷ lines ↦ parse_lines request_line lines ])
        (ok h)
    → HasLines s h
split-HasLines [] s h whole k = record {
  first = [];
  lines = [];
  whole = sym whole;
  spelled = parse_lines-Spells [] [] h k;
}
split-HasLines (l ∷ ls) s h whole k = record {
  first = l;
  lines = ls;
  whole = sym whole;
  spelled = parse_lines-Spells l ls h k;
}

pub parse_head-HasLines : (s : Text) (h : Head) → parse_head s ≡ ok h → HasLines s h
unfolding parse_head
parse_head-HasLines s h k = split-HasLines (split_crlf s) s h (join_crlf-split_crlf s) k

-- ===== src/Proxy/Http/Request/Framed.antt =====
-- The heads that proxy/src/http.rs accepts.
use thisconnect.Prelude.{
  guarded, ◌≤◌, ◌≡◌, sym, ap, subst, ◌∙◌, true, false, not, ◌||◌, Option, none, some, List, [], ◌∷◌,
  ◌++◌, arith, ltb, leb, ◌==◌, ltb→le, Result, ok, err, ok-injective, length, is_empty, all, any,
  keep, length-append, All, All-append, ok_parts,
}
use thisconnect.Prelude.Text.{Text, codes, starts_with, byte_len, lines}
use thisconnect.Proxy.Http.{max_request_line, malformed, HttpError, max_header_count}
use thisconnect.Proxy.Http.Request.{
  split_once, Header, Head, is_tchar, is_control, is_framing, is_authorization,
  reject_ambiguous_framing, trim_blanks, judge_header, parse_header, push_header, parse_headers,
  parse_lines, parse_head, split_crlf, parse_request_line,
}
use thisconnect.Proxy.Http.Request.Line.{
  join_crlf, join_crlf-split_crlf, join_crlf-fronted, request_text, IsVersion,
  parse_request_line-ok,
}

-- A header whose name is a token, and whose value holds no control character.
abbrev pub IsClean : Header → Type 0
IsClean header =
    (is_empty header.name ≡ false)
    × (all is_tchar header.name ≡ true)
    × (any is_control header.value ≡ false)

-- What is known of a head that is accepted.
pub record IsFramed (h : Head) : Type 0 where
  pub clean : All IsClean h.headers
  pub few : length h.headers ≤ max_header_count
  pub unframed : any is_framing h.headers ≡ false
  pub authorized_once : length (keep is_authorization h.headers) ≤ 1

judge_header-IsClean : (name value : Text) (h : Header) → judge_header name value ≡ ok h → IsClean h
unfolding judge_header
judge_header-IsClean name value h k =
    let (named, k₁) = guarded (is_empty name || not (all is_tchar name)) _ _ h k in
    let (plain, k₂) = guarded (any is_control (trim_blanks value)) _ _ h k₁ in
    subst IsClean (ok-injective k₂) (ground (arith, named), ground (arith, named), plain)

parse_header-IsClean : (line : Text) (h : Header) → parse_header line ≡ ok h → IsClean h
unfolding parse_header
parse_header-IsClean line h k = go (split_once b':' line) k
  where
    go :
        (o : Option (Text × Text))
        → ◌≡◌ {A = Result HttpError Header}
            (elim o [
              | none ↦ err (malformed (codes "header without a colon"))
              | some (name, value) ↦ judge_header name value
            ])
            (ok h)
        → IsClean h
    go none e = cc
    go (some (name, value)) e = judge_header-IsClean name value h e

push_header-IsClean :
    (headers more : List Header) (line : Text)
    → push_header headers line ≡ ok more
    → All IsClean headers
    → (length more ≤ max_header_count) × All IsClean more
unfolding push_header
push_header-IsClean headers more line h clean =
    let (_, h₁) = guarded (any (λ c. c == b'\r') line || any (λ c. c == b'\n') line) _ _ more h in
    let (_, h₂) =
      guarded (starts_with (codes " ") line || starts_with (b'\t' ∷ []) line) _ _ more h₁ in
    let (room, h₃) = guarded (leb max_header_count (length headers)) _ _ more h₂ in
    let (header, same, parsed) = ok_parts _ (parse_header line) h₃ in
    subst (λ l. (length l ≤ max_header_count) × All IsClean l) (ok-injective same)
      (
        ground (arith, length-append {0} headers (header ∷ []), room),
        All-append IsClean headers (header ∷ []) clean
            (parse_header-IsClean line header parsed, tt),
      )

parse_headers-IsClean :
    (headers more : List Header) (lines : List Text)
    → parse_headers headers lines ≡ ok more
    → length headers ≤ max_header_count
    → All IsClean headers
    → (length more ≤ max_header_count) × All IsClean more
unfolding parse_headers
parse_headers-IsClean headers more [] h few clean =
    subst (λ l. (length l ≤ max_header_count) × All IsClean l) (ok-injective h) (few, clean)
parse_headers-IsClean headers more (line ∷ lines) h few clean =
    let (next, h₁, pushed) = ok_parts _ (push_header headers line) h in
    let (few₁, clean₁) = push_header-IsClean headers next line pushed clean in
    parse_headers-IsClean next more lines h₁ few₁ clean₁

unambiguous :
    (headers : List Header) (u : Unit)
    → reject_ambiguous_framing headers ≡ ok u
    → (any is_framing headers ≡ false) × (length (keep is_authorization headers) ≤ 1)
unfolding reject_ambiguous_framing
unambiguous headers u h =
    let (unframed, h₁) = guarded (any is_framing headers) _ _ u h in
    let (once, _) = guarded (ltb 1 (length (keep is_authorization headers))) _ _ u h₁ in
    (unframed, ltb→le 1 (length (keep is_authorization headers)) once)

parse_lines-IsFramed :
    (line : Text) (lines : List Text) (h : Head)
    → parse_lines line lines ≡ ok h
    → (version : Text) × (line ≡ request_text h.target version)
      × (is_empty h.target ≡ false)
      × IsVersion version
      × IsFramed h
unfolding parse_lines
parse_lines-IsFramed line lines h k =
    let (_, k₁) = guarded (ltb max_request_line (byte_len line)) _ _ h k in
    let (target, k₂, parsed) = ok_parts _ (parse_request_line line) k₁ in
    let (headers, k₃, read) = ok_parts _ (parse_headers [] lines) k₂ in
    let (u, k₄, checked) = ok_parts _ (reject_ambiguous_framing headers) k₃ in
    let (few, clean) = parse_headers-IsClean [] headers lines read (omega arith) tt in
    let (unframed, once) = unambiguous headers u checked in
    let (version, whole, some_target, versioned, _) = parse_request_line-ok line target parsed in
    let same = ok-injective k₄ in
    (
      version,
      whole ∙ ap (λ (x : Head). request_text x.target version) same,
      subst (λ x. is_empty x.target ≡ false) same some_target,
      versioned,
      subst IsFramed same
          (record { clean = clean; few = few; unframed = unframed; authorized_once = once }),
    )

-- What an accepted head asks for: a tunnel to the target of its first line.
pub record IsConnect (s : Text) (h : Head) : Type 0 where
  pub version : Text
  pub lines : Text
  pub asks : s ≡ request_text h.target version ++ lines
  pub versioned : IsVersion version
  pub some_target : is_empty h.target ≡ false

parsed_lines :
    (ls : List Text) (s : Text) (h : Head)
    → join_crlf ls ≡ s
    → ◌≡◌ {A = Result HttpError Head}
        (elim ls [ [] ↦ parse_lines [] [] | request_line ∷ lines ↦ parse_lines request_line lines ])
        (ok h)
    → IsConnect s h × IsFramed h
parsed_lines [] s h whole k =
    let (version, line, some_target, versioned, framed) = parse_lines-IsFramed [] [] h k in cc
parsed_lines (l ∷ ls) s h whole k =
    let (version, line, some_target, versioned, framed) = parse_lines-IsFramed l ls h k in
    let (lines, fronted) = join_crlf-fronted l ls in
    (
      record {
        version = version;
        lines = lines;
        asks = sym whole ∙ (fronted ∙ ap (λ (t : Text). t ++ lines) line);
        versioned = versioned;
        some_target = some_target;
      },
      framed,
    )

-- A head that `parse_head` accepts begins with the line `CONNECT target HTTP/1.1` (or `HTTP/1.0`)
-- for a target that is not empty, which is the one it returns. It has at most 64 headers, each
-- named by a token and without control characters in its value, at most one
-- `Proxy-Authorization` among them, and neither a `Content-Length` nor a `Transfer-Encoding`, in
-- any case of letters.
pub parse_head-IsFramed : (s : Text) (h : Head) → parse_head s ≡ ok h → IsConnect s h × IsFramed h
unfolding parse_head
parse_head-IsFramed s h k = parsed_lines (split_crlf s) s h (join_crlf-split_crlf s) k

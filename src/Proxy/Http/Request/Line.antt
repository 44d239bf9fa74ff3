-- ===== src/Proxy/Http/Request/Line.antt =====
-- What the request line is that proxy/src/http.rs accepts.
use thisconnect.Prelude.{
  append-nil, guarded, ℕ, ◌<◌, ◌≡◌, refl, sym, ap, ap₂, ◌∙◌, ◌⊎◌, inl, inr, Bool, true, false, not,
  ◌&&◌, ◌||◌, List, [], ◌∷◌, ◌++◌, arith, ◌==◌, if◌then◌else◌, Bool-cases, ==_iff, Result, ok, err,
  ok-injective, length, is_empty,
}
use thisconnect.Prelude.Text.{Text, codes, text_eq, text_eq_iff}
use thisconnect.Prelude.Split.{split}
use thisconnect.Proxy.Http.{method_not_supported, absolute_form_unsupported, HttpError}
use thisconnect.Proxy.Http.Request.{
  split_crlf, onto_first_line, judge_request_line, request_line_parts, parse_request_line, is_ascii,
}

-- The parts of a text put together again with a character between them.
abbrev join : ℕ → List Text → Text
join c [] = []
join c (l ∷ []) = l
join c (l ∷ k ∷ ls) = l ++ (c ∷ join c (k ∷ ls))

abbrev onto : ℕ → List Text → List Text
onto c [] = (c ∷ []) ∷ []
onto c (l ∷ ls) = (c ∷ l) ∷ ls

join-onto : (c x : ℕ) (ls : List Text) → join c (onto x ls) ≡ x ∷ join c ls
join-onto c x [] = refl
join-onto c x (l ∷ []) = refl
join-onto c x (l ∷ k ∷ ls) = refl

join_empty : (c : ℕ) (ls : List Text) → 0 < length ls → join c ([] ∷ ls) ≡ c ∷ join c ls
join_empty c [] h = let k : ⊥ = omega (arith, h) in elim k [ ]
join_empty c (l ∷ ls) h = refl

length-onto : (x : ℕ) (ls : List Text) → 0 < length (onto x ls)
length-onto x [] = omega arith
length-onto x (l ∷ ls) = omega arith

length-split : (c : ℕ) (s : Text) → 0 < length (split c s)
unfolding split
length-split c [] = omega arith
length-split c (x ∷ s) = elim (Bool-cases (x == c)) [
  | inl same ↦ rw same (omega arith)
  | inr other ↦ rw other (length-onto x (split c s))
]

pub join-split : (c : ℕ) (s : Text) → join c (split c s) ≡ s
unfolding split
join-split c [] = refl
join-split c (x ∷ s) = elim (Bool-cases (x == c)) [
  | inl same ↦ rw same (
      join_empty c (split c s) (length-split c s)
      ∙ ap₂ (λ (y : ℕ) (t : Text). y ∷ t) (sym ((==_iff x c).0 same)) (join-split c s))
  | inr other ↦ rw other (join-onto c x (split c s) ∙ ap (◌∷◌ x) (join-split c s))
]

abbrev pub join_crlf : List Text → Text
join_crlf [] = []
join_crlf (l ∷ []) = l
join_crlf (l ∷ k ∷ ls) = l ++ (b'\r' ∷ b'\n' ∷ join_crlf (k ∷ ls))

pub join_crlf-fronted :
    (l : Text) (ls : List Text) → (rest : Text) × (join_crlf (l ∷ ls) ≡ l ++ rest)
join_crlf-fronted l [] = ([], sym (append-nil l))
join_crlf-fronted l (k ∷ ls) = (b'\r' ∷ b'\n' ∷ join_crlf (k ∷ ls), refl)

join_crlf-onto : (x : ℕ) (ls : List Text) → join_crlf (onto_first_line x ls) ≡ x ∷ join_crlf ls
join_crlf-onto x [] = refl
join_crlf-onto x (l ∷ []) = refl
join_crlf-onto x (l ∷ k ∷ ls) = refl

-- A cut at the front, where the rest is not the empty list of lines.
cut_front : (ls : List Text) → 0 < length ls → join_crlf ([] ∷ ls) ≡ b'\r' ∷ b'\n' ∷ join_crlf ls
cut_front [] h = let k : ⊥ = omega (arith, h) in elim k [ ]
cut_front (l ∷ ls) h = refl

length-onto_first_line : (x : ℕ) (ls : List Text) → 0 < length (onto_first_line x ls)
length-onto_first_line x [] = omega arith
length-onto_first_line x (l ∷ ls) = omega arith

length-split_crlf : (s : Text) → 0 < length (split_crlf s)
unfolding split_crlf
length-split_crlf [] = omega arith
length-split_crlf (c ∷ []) = omega arith
length-split_crlf (c ∷ d ∷ s) = elim (Bool-cases (c == b'\r' && d == b'\n')) [
  | inl cut ↦ rw (split_crlf, cut) (omega arith)
  | inr kept ↦ rw (split_crlf, kept) (length-onto_first_line c (split_crlf (d ∷ s)))
]

crlf_is : (c d : ℕ) → (c == b'\r' && d == b'\n') ≡ true → (c ≡ b'\r') × (d ≡ b'\n')
crlf_is c d h = (ground (arith, h), ground (arith, h))

pub join_crlf-split_crlf : (s : Text) → join_crlf (split_crlf s) ≡ s
unfolding split_crlf
join_crlf-split_crlf [] = refl
join_crlf-split_crlf (c ∷ []) = refl
join_crlf-split_crlf (c ∷ d ∷ s) = elim (Bool-cases (c == b'\r' && d == b'\n')) [
  | inl cut ↦
      let (e, f) = crlf_is c d cut in
      rw (split_crlf, cut)
        (cut_front (split_crlf s) (length-split_crlf s) ∙ rw (e, f, join_crlf-split_crlf s) refl)
  | inr kept ↦
      rw (split_crlf, kept)
        (join_crlf-onto c (split_crlf (d ∷ s)) ∙ ap (◌∷◌ c) (join_crlf-split_crlf (d ∷ s)))
]

-- A version of HTTP that is taken.
abbrev pub IsVersion : Text → Type 0
IsVersion version = (version ≡ codes "HTTP/1.1") ⊎ (version ≡ codes "HTTP/1.0")

abbrev pub request_text : Text → Text → Text
request_text target version = codes "CONNECT" ++ (b' ' ∷ (target ++ (b' ' ∷ version)))

method_parts :
    (c d : Bool) (target method t : Text)
    → (if not c
        then (if d then err absolute_form_unsupported else err (method_not_supported method))
        else ok target)
      ≡ ok t
    → (c ≡ true) × (◌≡◌ {A = Result HttpError Text} (ok target) (ok t))
method_parts false true target method t h = cc
method_parts false false target method t h = cc
method_parts true d target method t h = (refl, h)

IsVersion-cases :
    (version : Text)
    → (not (text_eq version (codes "HTTP/1.1")) && not (text_eq version (codes "HTTP/1.0"))) ≡ false
    → IsVersion version
IsVersion-cases version h = elim (Bool-cases (text_eq version (codes "HTTP/1.1"))) [
  | inl same ↦ inl ((text_eq_iff version (codes "HTTP/1.1")).0 same)
  | inr other ↦ inr ((text_eq_iff version (codes "HTTP/1.0")).0 (ground (arith, other, h)))
]

judge_request_line-ok :
    (method target version t : Text)
    → judge_request_line method target version ≡ ok t
    → (t ≡ target) × (method ≡ codes "CONNECT") × (is_empty target ≡ false) × IsVersion version
unfolding judge_request_line
judge_request_line-ok method target version t h =
    let (some_parts, h₁) = guarded (is_empty method || is_empty target) _ _ t h in
    let (versioned, h₂) =
      guarded (not (text_eq version (codes "HTTP/1.1")) && not (text_eq version (codes "HTTP/1.0")))
        _ _ t h₁ in
    let (connects, h₃) = method_parts (text_eq method (codes "CONNECT")) _ target method t h₂ in
    (
      sym (ok-injective h₃),
      (text_eq_iff method (codes "CONNECT")).0 connects,
      ground (arith, some_parts),
      IsVersion-cases version versioned,
    )

-- the parts of a line that has exactly three
request_line_parts-ok :
    (parts : List Text) (t : Text)
    → request_line_parts parts ≡ ok t
    → (version : Text) × (join b' ' parts ≡ request_text t version)
      × (is_empty t ≡ false)
      × IsVersion version
unfolding request_line_parts
request_line_parts-ok [] t h = cc
request_line_parts-ok (method ∷ []) t h = cc
request_line_parts-ok (method ∷ target ∷ []) t h = cc
request_line_parts-ok (method ∷ target ∷ version ∷ []) t h =
    let (same, connect, some_target, versioned) = judge_request_line-ok method target version t h in
    (version, rw (connect, same) refl, rw same some_target, versioned)
request_line_parts-ok (method ∷ target ∷ version ∷ more ∷ rest) t h = cc

-- A request line that is taken asks for a tunnel, in HTTP/1.1 or HTTP/1.0.
pub parse_request_line-ok :
    (line t : Text)
    → parse_request_line line ≡ ok t
    → (version : Text) × (line ≡ request_text t version)
      × (is_empty t ≡ false)
      × IsVersion version
      × (is_ascii line ≡ true)
unfolding parse_request_line
parse_request_line-ok line t h =
    let (ascii, h₁) = guarded (not (is_ascii line)) _ _ t h in
    let (version, whole, some_target, versioned) = request_line_parts-ok (split b' ' line) t h₁ in
    (version, sym (join-split b' ' line) ∙ whole, some_target, versioned, ground (arith, ascii))

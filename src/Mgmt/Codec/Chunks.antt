-- ===== src/Mgmt/Codec/Chunks.antt =====
-- `LineSplitter::push` of daemon/src/mgmt/codec.rs: where the stream is cut makes no difference.
use thisconnect.Prelude.{
  ℕ, ◌≤◌, ◌≡◌, refl, sym, ap, ap₂, subst, ◌∙◌, inl, inr, false, List, [], ◌∷◌, ◌++◌, map,
  append-nil, append_assoc, arith, ◌==◌, Bool-cases, Result, ok, err, length, any,
}
use thisconnect.Prelude.Text.{Text, Bytes, lines}
use mathlib.Core.List.{map-append}
use thisconnect.Mgmt.Escape.{MgmtError}
use thisconnect.Mgmt.Codec.{
  max_inbound_line_bytes, LineSplitter, onto_parts, new_line, split_lines, decode_line, push,
}

abbrev after : List Bytes × Bytes → Bytes → List Bytes × Bytes
after (ls, rest) more = let (ls', rest') = split_lines (rest ++ more) in (ls ++ ls', rest')

onto_parts-after :
    (b : ℕ) (ls : List Bytes) (rest more : Bytes)
    → (b == b'\n') ≡ false
    → onto_parts b (after (ls, rest) more) ≡ after (onto_parts b (ls, rest)) more
unfolding split_lines
onto_parts-after b [] rest more h = rw (h, split_lines)
onto_parts-after b (l ∷ ls) rest more h = refl

split_lines-append : (xs ys : Bytes) → split_lines (xs ++ ys) ≡ after (split_lines xs) ys
unfolding split_lines
split_lines-append [] ys = refl
split_lines-append (b ∷ xs) ys = elim (Bool-cases (b == b'\n')) [
  | inl nl ↦ rw nl (ap new_line (split_lines-append xs ys))
  | inr other ↦ rw other (
      ap (onto_parts b) (split_lines-append xs ys)
      ∙ onto_parts-after b (split_lines xs).0 (split_lines xs).1 ys other)
]

-- What stays behind holds no line feed.
split_lines_rest : (xs : Bytes) → any (λ b. b == b'\n') (split_lines xs).1 ≡ false
unfolding split_lines
split_lines_rest [] = refl
split_lines_rest (b ∷ xs) = elim (Bool-cases (b == b'\n')) [
  | inl nl ↦ rw nl (split_lines_rest xs)
  | inr other ↦ rw other (go (split_lines xs).0 (split_lines xs).1 (split_lines_rest xs) other)
]
  where
    go :
        (ls : List Bytes) (rest : Bytes)
        → any (λ c. c == b'\n') rest ≡ false
        → (b == b'\n') ≡ false
        → any (λ c. c == b'\n') (onto_parts b (ls, rest)).1 ≡ false
    go [] rest h o = rw o h
    go (l ∷ ls) rest h o = h

-- The lines, each with its line feed, and the rest are the stream.
abbrev pub joined : List Bytes → Bytes → Bytes
joined [] rest = rest
joined (l ∷ ls) rest = l ++ (b'\n' ∷ joined ls rest)

joined-onto_parts :
    (b : ℕ) (ls : List Bytes) (rest : Bytes)
    → joined (onto_parts b (ls, rest)).0 (onto_parts b (ls, rest)).1 ≡ b ∷ joined ls rest
joined-onto_parts b [] rest = refl
joined-onto_parts b (l ∷ ls) rest = refl

joined-split_lines : (xs : Bytes) → joined (split_lines xs).0 (split_lines xs).1 ≡ xs
unfolding split_lines
joined-split_lines [] = refl
joined-split_lines (b ∷ xs) = elim (Bool-cases (b == b'\n')) [
  | inl nl ↦ rw nl (ground (arith, joined-split_lines xs))
  | inr other ↦ rw other (
      joined-onto_parts b (split_lines xs).0 (split_lines xs).1
      ∙ ap (λ (t : Bytes). b ∷ t) (joined-split_lines xs))
]

abbrev pub Pushed : Type 0
Pushed = Result MgmtError (LineSplitter × List Text)

abbrev pub put_before : List Text → Pushed → Pushed
put_before ls (err e) = err e
put_before ls (ok (s, ls')) = ok (s, ls ++ ls')

abbrev pub and_then : Pushed → (LineSplitter → Pushed) → Pushed
and_then (err e) next = err e
and_then (ok (s, ls)) next = put_before ls (next s)

module _ (decode : Bytes → Text) where
  -- A successful push, taken apart.
  push-parts :
      (s : LineSplitter) (chunk : Bytes) (s' : LineSplitter) (ls : List Text)
      → push decode s chunk ≡ ok (s', ls)
      → (s'.buffered ≡ (split_lines (s.buffered ++ chunk)).1)
        × (ls ≡ map (decode_line decode) (split_lines (s.buffered ++ chunk)).0)
        × (length s'.buffered ≤ max_inbound_line_bytes)
  unfolding push
  push-parts s chunk s' ls h = ground arith

  parts-push :
      (s : LineSplitter) (chunk : Bytes)
      → length (split_lines (s.buffered ++ chunk)).1 ≤ max_inbound_line_bytes
      → push decode s chunk
        ≡ ok (
          record { buffered = (split_lines (s.buffered ++ chunk)).1 },
          map (decode_line decode) (split_lines (s.buffered ++ chunk)).0,
        )
  unfolding push
  parts-push s chunk h = ground arith

  push_twice :
      (s s1 s2 : LineSplitter) (a b : Bytes) (ls1 ls2 : List Text)
      → push decode s a ≡ ok (s1, ls1)
      → push decode s1 b ≡ ok (s2, ls2)
      → push decode s (a ++ b) ≡ ok (s2, ls1 ++ ls2)
  push_twice s s1 s2 a b ls1 ls2 first second =
      let (buf1, lines1, short1) = push-parts s a s1 ls1 first in
      let (buf2, lines2, short2) = push-parts s1 b s2 ls2 second in
      let whole : split_lines (s.buffered ++ (a ++ b)) ≡ after (split_lines (s.buffered ++ a)) b =
        ap split_lines (sym (append_assoc s.buffered a b))
        ∙ split_lines-append (s.buffered ++ a) b in
      let rest_eq : (split_lines (s.buffered ++ (a ++ b))).1 ≡ s2.buffered =
        ap (λ (x : List Bytes × Bytes). x.1) whole
        ∙ ap (λ (r : Bytes). (split_lines (r ++ b)).1) (sym buf1)
        ∙ sym buf2 in
      let lines_eq : map (decode_line decode) (split_lines (s.buffered ++ (a ++ b))).0
          ≡ ls1 ++ ls2 =
        ap (λ (x : List Bytes × Bytes). map (decode_line decode) x.0) whole
        ∙ map-append (decode_line decode) _ _
        ∙ ap₂ (λ (x y : List Text). x ++ y) (sym lines1)
            (ap (λ (r : Bytes). map (decode_line decode) (split_lines (r ++ b)).0) (sym buf1)
              ∙ sym lines2) in
      parts-push s (a ++ b) (rw rest_eq short2)
      ∙ ap₂ (λ (r : Bytes) (l : List Text). ok (record { buffered = r }, l)) rest_eq lines_eq

  -- Pushes of chunks one after another, up to the first error.
  abbrev pub push_all : LineSplitter → List Bytes → Pushed
  push_all s [] = ok (s, [])
  push_all s (c ∷ cs) = and_then (push decode s c) (λ s'. push_all s' cs)

  abbrev pub concat : List Bytes → Bytes
  concat [] = []
  concat (c ∷ cs) = c ++ concat cs

  push_all-concat :
      (s : LineSplitter) (c : Bytes) (cs : List Bytes) (s' : LineSplitter) (ls : List Text)
      → push_all s (c ∷ cs) ≡ ok (s', ls)
      → push decode s (c ++ concat cs) ≡ ok (s', ls)
  push_all-concat s c [] s' ls h = go (push decode s c) refl h
    where
      go :
          (r : Pushed)
          → push decode s c ≡ r
          → and_then r (λ s1. ok (s1, [])) ≡ ok (s', ls)
          → push decode s (c ++ []) ≡ ok (s', ls)
      go (err e) q k = cc
      go (ok (s1, ls1)) q k =
          rw append-nil (q ∙ ap (λ (l : List Text). ok (s1, l)) (sym (append-nil ls1)) ∙ k)
  push_all-concat s c (d ∷ cs) s' ls h =
      go (push decode s c) refl h (λ s1. push_all-concat s1 d cs s')
    where
      last :
          (s1 : LineSplitter) (ls1 : List Text) (r : Pushed)
          → push_all s1 (d ∷ cs) ≡ r
          → push decode s c ≡ ok (s1, ls1)
          → put_before ls1 r ≡ ok (s', ls)
          → ((l : List Text)
              → push_all s1 (d ∷ cs) ≡ ok (s', l)
              → push decode s1 (d ++ concat cs) ≡ ok (s', l))
          → push decode s (c ++ (d ++ concat cs)) ≡ ok (s', ls)
      last s1 ls1 (err e) q p k ih = cc
      last s1 ls1 (ok (s2, ls2)) q p k ih =
          let same_state : s2 ≡ s' = ground arith in
          let same_lines : ls1 ++ ls2 ≡ ls = ground arith in
          subst (λ (l : List Text). push decode s (c ++ (d ++ concat cs)) ≡ ok (s', l)) same_lines
            (push_twice s s1 s' c (d ++ concat cs) ls1 ls2 p
              (ih ls2 (q ∙ ap (λ (v : LineSplitter). ok (v, ls2)) same_state)))

      go :
          (r : Pushed)
          → push decode s c ≡ r
          → and_then r (λ s1. push_all s1 (d ∷ cs)) ≡ ok (s', ls)
          → ((s1 : LineSplitter) (l : List Text)
              → push_all s1 (d ∷ cs) ≡ ok (s', l)
              → push decode s1 (d ++ concat cs) ≡ ok (s', l))
          → push decode s (c ++ (d ++ concat cs)) ≡ ok (s', ls)
      go (err e) q k ih = cc
      go (ok (s1, ls1)) q k ih = last s1 ls1 (push_all s1 (d ∷ cs)) refl q k (ih s1)

  -- Whatever cuts a stream into one or more chunks, if all pushes succeed then one push of the
  -- whole stream succeeds with the same lines and the same splitter behind it, and that splitter
  -- holds at most 8192 bytes, none of them a line feed.
  pub chunks_do_not_matter :
      (s : LineSplitter) (c : Bytes) (cs : List Bytes) (s' : LineSplitter) (ls : List Text)
      → push_all s (c ∷ cs) ≡ ok (s', ls)
      → (push decode s (concat (c ∷ cs)) ≡ ok (s', ls))
        × (length s'.buffered ≤ max_inbound_line_bytes)
        × (any (λ b. b == b'\n') s'.buffered ≡ false)
  chunks_do_not_matter s c cs s' ls h =
      let whole = push_all-concat s c cs s' ls h in
      let (rest, lines, short) = push-parts s (concat (c ∷ cs)) s' ls whole in
      (whole, short, rw rest (split_lines_rest (s.buffered ++ concat (c ∷ cs))))

  -- Nothing is lost or invented: a push that succeeds yields the decoded pieces of a split of what
  -- was buffered and the chunk, which joined by line feeds give back exactly those bytes.
  pub joined-push :
      (s : LineSplitter) (chunk : Bytes) (s' : LineSplitter) (ls : List Text)
      → push decode s chunk ≡ ok (s', ls)
      → (raw : List Bytes) × (ls ≡ map (decode_line decode) raw)
        × (joined raw s'.buffered ≡ s.buffered ++ chunk)
  joined-push s chunk s' ls h =
      let (rest, lines, short) = push-parts s chunk s' ls h in
      (
        (split_lines (s.buffered ++ chunk)).0,
        lines,
        rw rest (joined-split_lines (s.buffered ++ chunk)),
      )

-- ===== src/Proxy/Http/Head/Whole.antt =====
-- What `read_head` of proxy/src/http.rs returns does not depend on how the client's bytes are cut
-- into reads.
use thisconnect.Prelude.{
  take-append, some-injective, ℕ, ◌+◌, ◌≤◌, ◌<◌, ◌≡◌, refl, sym, ap, subst, ◌∙◌, ◌⊎◌, inl, inr,
  Bool, true, false, Option, none, some, List, [], ◌∷◌, ◌++◌, append-nil, append_assoc, arith, leb,
  if◌then◌else◌, Bool-cases, leb→le, Result, ok, err, ok-injective, length, take, drop, is_empty,
  All,
}
use thisconnect.Prelude.Text.{Bytes}
use thisconnect.Proxy.Http.{head_too_large, max_head_bytes}
use thisconnect.Proxy.Http.Client.{Client, AtEnd, Stop, failed, closed}
use thisconnect.Proxy.Http.Head.{
  terminator, position_of, find_terminator, RawHead, at_end_error, checked, read_more, read_head,
}
use thisconnect.Proxy.Http.Head.Terminator.{
  past_suc, position_of-splits, position_of-append, position_of-short, find_terminator-position_of,
}

-- the bytes of all reads
abbrev pub concat : List Bytes → Bytes
concat [] = []
concat (c ∷ cs) = c ++ concat cs

-- No read yields nothing, which would be the end.
abbrev pub IsFlowing : List Bytes → Type 0
IsFlowing chunks = All (λ c. is_empty c ≡ false) chunks

abbrev pub found_head : Bytes → ℕ → RawHead
found_head buf end = record { head = take end buf; pending = drop (end + 4) buf }

-- What the loop does with the bytes it has.
pub data Checked (buf : Bytes) : Type 0 where
  found :
      (e : ℕ) → position_of buf ≡ some e → checked buf ≡ some (ok (found_head buf e)) → Checked buf
  too_large :
      position_of buf ≡ none
      → max_head_bytes ≤ length buf
      → checked buf ≡ some (err (failed head_too_large))
      → Checked buf
  unfinished :
      position_of buf ≡ none → length buf < max_head_bytes → checked buf ≡ none → Checked buf

checked_at :
    (buf : Bytes) (o : Option ℕ)
    → position_of buf ≡ o
    → find_terminator buf ≡ o
    → (leb max_head_bytes (length buf) ≡ true) ⊎ (leb max_head_bytes (length buf) ≡ false)
    → Checked buf
unfolding checked
checked_at buf (some e) k h b = found e k (rw (checked, h) refl)
checked_at buf none k h (inl long) =
    too_large k (leb→le max_head_bytes (length buf) long) (rw (checked, h, long) refl)
checked_at buf none k h (inr short) =
    unfinished k (ground (arith, short)) (rw (checked, h, short) refl)

pub Checked_cases : (buf : Bytes) → Checked buf
Checked_cases buf =
    checked_at buf (position_of buf) refl (find_terminator-position_of buf)
      (Bool-cases (leb max_head_bytes (length buf)))

-- What stands in front of the end of a list of reads, and behind the head.
abbrev IsCut : Bytes → List Bytes → RawHead → List Bytes → Type 0
IsCut buf chunks raw rest =
    (buf ++ concat chunks ≡ raw.head ++ (terminator ++ (raw.pending ++ concat rest)))
    × (position_of (buf ++ concat chunks) ≡ some (length raw.head))

found-IsCut :
    (buf : Bytes) (chunks : List Bytes) (e : ℕ)
    → position_of buf ≡ some e
    → IsCut buf chunks (found_head buf e) chunks
found-IsCut buf chunks e h =
    let (whole, sized) = position_of-splits buf e h in
    (
      ap (λ (s : Bytes). s ++ concat chunks) whole
          ∙ append_assoc (take e buf) (terminator ++ drop (e + 4) buf) (concat chunks),
      rw (position_of-append buf (concat chunks) e h, sized) refl,
    )

pub read_more-decided :
    (buf : Bytes) (chunks : List Bytes) (at_end : AtEnd) (r : Result Stop RawHead)
    → checked buf ≡ some r
    → read_more buf chunks at_end ≡ (r, chunks)
unfolding read_more
read_more-decided buf [] at_end r h = rw (read_more, h) refl
read_more-decided buf (chunk ∷ chunks) at_end r h = rw (read_more, h) refl

pub read_more-unended :
    (buf : Bytes) (at_end : AtEnd)
    → checked buf ≡ none
    → read_more buf [] at_end ≡ (err (at_end_error at_end), [])
unfolding read_more
read_more-unended buf at_end h = rw (read_more, h) refl

pub read_more-next :
    (buf chunk : Bytes) (chunks : List Bytes) (at_end : AtEnd)
    → checked buf ≡ none
    → read_more buf (chunk ∷ chunks) at_end ≡ (
        if is_empty chunk
        then (err (at_end_error closed), chunks)
        else read_more (buf ++ chunk) chunks at_end)
unfolding read_more
read_more-next buf chunk chunks at_end h = rw (read_more, h) refl

decided-IsCut :
    (buf : Bytes) (chunks rest : List Bytes) (at_end : AtEnd) (raw : RawHead) (e : ℕ)
    → position_of buf ≡ some e
    → checked buf ≡ some (ok (found_head buf e))
    → read_more buf chunks at_end ≡ (ok raw, rest)
    → IsCut buf chunks raw rest
decided-IsCut buf chunks rest at_end raw e k c h =
    let same = sym (read_more-decided buf chunks at_end (ok (found_head buf e)) c) ∙ h in
    subst (λ r. IsCut buf chunks r rest) (ok-injective (ap (λ x. x.0) same))
      (subst (IsCut buf chunks (found_head buf e)) (ap (λ x. x.1) same)
        (found-IsCut buf chunks e k))

undecided :
    (buf : Bytes) (chunks rest : List Bytes) (at_end : AtEnd) (raw : RawHead)
    → checked buf ≡ some (err (failed head_too_large))
    → read_more buf chunks at_end ≡ (ok raw, rest)
    → ⊥
undecided buf chunks rest at_end raw c h =
    let same = sym (read_more-decided buf chunks at_end (err (failed head_too_large)) c) ∙ h in cc

further :
    (b : Bool) (cut : Result Stop RawHead × List Bytes) (chunks rest : List Bytes) (raw : RawHead)
    → ◌≡◌ {A = Result Stop RawHead × List Bytes}
        (if b then (err (at_end_error closed), chunks) else cut)
        (ok raw, rest)
    → cut ≡ (ok raw, rest)
further true cut chunks rest raw h = cc
further false cut chunks rest raw h = h

read_more-IsCut :
    (buf : Bytes) (chunks rest : List Bytes) (at_end : AtEnd) (raw : RawHead)
    → read_more buf chunks at_end ≡ (ok raw, rest)
    → IsCut buf chunks raw rest
read_more-IsCut buf [] rest at_end raw h = elim (Checked_cases buf) [
  | found e k c ↦ decided-IsCut buf [] rest at_end raw e k c h
  | too_large k l c ↦ elim (undecided buf [] rest at_end raw c h) [ ]
  | unfinished k l c ↦ let same = sym (read_more-unended buf at_end c) ∙ h in cc
]
read_more-IsCut buf (chunk ∷ chunks) rest at_end raw h = elim (Checked_cases buf) [
  | found e k c ↦ decided-IsCut buf (chunk ∷ chunks) rest at_end raw e k c h
  | too_large k l c ↦ elim (undecided buf (chunk ∷ chunks) rest at_end raw c h) [ ]
  | unfinished k l c ↦
      let later =
        further (is_empty chunk) _ chunks rest raw
          (sym (read_more-next buf chunk chunks at_end c) ∙ h) in
      let (whole, first) = read_more-IsCut (buf ++ chunk) chunks rest at_end raw later in
      (
        sym (append_assoc buf chunk (concat chunks)) ∙ whole,
        ap position_of (sym (append_assoc buf chunk (concat chunks))) ∙ first,
      )
]

read_more-returns :
    (buf : Bytes) (chunks : List Bytes) (at_end : AtEnd) (e : ℕ)
    → IsFlowing chunks
    → position_of (buf ++ concat chunks) ≡ some e
    → e + 4 ≤ max_head_bytes
    → (raw : RawHead) × (rest : List Bytes) × (read_more buf chunks at_end ≡ (ok raw, rest))
read_more-returns buf [] at_end e flows at_e fits = elim (Checked_cases buf) [
  | found i k c ↦ (found_head buf i, [], read_more-decided buf [] at_end (ok (found_head buf i)) c)
  | too_large k l c ↦
      let k : ⊥ = omega (arith, position_of-short buf [] e at_e k, l, fits) in elim k [ ]
  | unfinished k l c ↦ let same = sym (ap position_of (append-nil buf)) ∙ at_e in cc
]
read_more-returns buf (chunk ∷ chunks) at_end e flows at_e fits = elim (Checked_cases buf) [
  | found i k c ↦ (
    found_head buf i,
    chunk ∷ chunks,
    read_more-decided buf (chunk ∷ chunks) at_end (ok (found_head buf i)) c,
  )
  | too_large k l c ↦
      let k : ⊥ = omega (arith, position_of-short buf (chunk ++ concat chunks) e at_e k, l, fits) in
      elim k [ ]
  | unfinished k l c ↦
      let later = ap position_of (append_assoc buf chunk (concat chunks)) ∙ at_e in
      let (raw, rest, h) = read_more-returns (buf ++ chunk) chunks at_end e (flows.1) later fits in
      (raw, rest, read_more-next buf chunk chunks at_end c ∙ rw (flows.0) h)
]

drop_head : (head behind : Bytes) → drop (length head + 4) (head ++ (terminator ++ behind)) ≡ behind
drop_head [] behind = refl
drop_head (c ∷ head) behind = rw (past_suc (length head)) (drop_head head behind)

IsCut-parts :
    (buf : Bytes) (chunks : List Bytes) (raw : RawHead) (rest : List Bytes) (e : ℕ)
    → position_of (buf ++ concat chunks) ≡ some e
    → IsCut buf chunks raw rest
    → (raw.head ≡ take e (buf ++ concat chunks))
      × (raw.pending ++ concat rest ≡ drop (e + 4) (buf ++ concat chunks))
IsCut-parts buf chunks raw rest e at_e (whole, first) =
    let same = some-injective (sym at_e ∙ first) in
    (sym (rw (same, whole) (take-append raw.head _)), sym (rw (same, whole) (drop_head raw.head _)))

-- Where all that a client sends holds the end of a head within 8192 bytes, and no read yields
-- nothing before it, `read_head` returns the bytes in front of the first empty line, however they
-- are cut into reads; what it has read behind them and what is still unread are, together, all
-- that the client sent behind that line.
pub read_head-whole :
    (w : Client) (e : ℕ)
    → IsFlowing w.reads
    → position_of (concat w.reads) ≡ some e
    → e + 4 ≤ max_head_bytes
    → (raw : RawHead) × (rest : List Bytes) × (read_head w ≡ (ok raw, record w { reads = rest }))
      × (raw.head ≡ take e (concat w.reads))
      × (raw.pending ++ concat rest ≡ drop (e + 4) (concat w.reads))
unfolding read_head
read_head-whole w e flows at_e fits =
    let (raw, rest, h) = read_more-returns [] w.reads w.at_end e flows at_e fits in
    let (fronted, behind) =
      IsCut-parts [] w.reads raw rest e at_e (read_more-IsCut [] w.reads rest w.at_end raw h) in
    (raw, rest, ap (λ x. (x.0, record w { reads = x.1 })) h, fronted, behind)

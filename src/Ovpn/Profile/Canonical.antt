-- ===== src/Ovpn/Profile/Canonical.antt =====
-- The loop of `parse_profile` in shared/src/ovpn/mod.rs, and the profile at its end.
use thisconnect.Prelude.{
  ℕ, ◌+◌, ◌≤◌, ◌≡◌, sym, subst, inl, inr, Bool, true, false, not, ◌&&◌, List, [], ◌∷◌, ◌++◌, arith,
  ltb, ◌==◌, if◌then◌else◌, Bool-cases, Result, ok, err, ok-injective, length, is_empty, All,
  All-append, ok_parts,
}
use thisconnect.Prelude.Text.{Text, text_eq, byte_len, lines}
use thisconnect.Ovpn.Error.{ValidationError, max_directives, max_file_bytes}
use thisconnect.Ovpn.Lexer.{Item, directive, block, RawBlock, lex, tokenize}
use thisconnect.Ovpn.Types.{EmittedDirective, show_directive}
use thisconnect.Ovpn.Directive.{classify, top_level, is_inline_material}
use thisconnect.Ovpn.Emission.{IsEmittable, tokenize-show_directive}
use thisconnect.Ovpn.Emission.Verdicts.{classify-IsSound}
use thisconnect.Ovpn.Profile.{
  Profile, ConnectionBlock, empty_parts, connection_tag, count_one, absorb, parse_connection,
  absorb_inline, absorb_item, absorb_items, checked, parse_profile, to_canonical_config,
}
use thisconnect.Ovpn.Profile.Import.{passed_both}
use thisconnect.Ovpn.Profile.Lined.{canonical_lines, lines-to_canonical_config}
use thisconnect.Ovpn.Profile.Written.{
  written_inside, written, AllEmittable, Writes, count_one_lem, absorb-Writes, IsFilled,
  parse_connection-IsFilled,
}

written_inside-append :
    (cs : List ConnectionBlock) (c : ConnectionBlock)
    → written_inside (cs ++ c ∷ []) ≡ written_inside cs + length c.directives
written_inside-append [] c = omega arith
written_inside-append (x ∷ cs) c = omega (arith, written_inside-append cs c)

with_connection :
    (p : Profile) (c : ConnectionBlock) (n m : ℕ)
    → Writes p n
    → IsFilled c n m
    → Writes (record p { connections = p.connections ++ c ∷ [] }) m
with_connection p c n m w f = record {
  top = w.top;
  inside = All-append AllEmittable p.connections (c ∷ []) w.inside (f.directives, tt);
  counted = omega (arith, written_inside-append p.connections c, w.counted, f.counted);
}

inline_of :
    (b c : Bool) (e e' : ValidationError) (p q r : Profile) (n : ℕ)
    → ◌≡◌ {A = Result ValidationError Profile}
        (if not b then err e else if c then err e' else ok q)
        (ok r)
    → Writes q n
    → Writes r n
inline_of false c e e' p q r n h w = cc
inline_of true true e e' p q r n h w = cc
inline_of true false e e' p q r n h w = subst (λ x. Writes x n) (ok-injective h) w

absorb_inline-Writes :
    (p : Profile) (b : RawBlock) (p' : Profile) (n : ℕ)
    → absorb_inline p b ≡ ok p'
    → Writes p n
    → Writes p' n
unfolding absorb_inline
absorb_inline-Writes p b p' n h w =
    inline_of (is_inline_material b.tag) _ _ _ p
      (record p { inline = p.inline ++ record { tag = b.tag; body = b.body } ∷ [] }) p' n h w

absorb_item-Writes :
    (p : Profile) (n : ℕ) (item : Item) (r : Profile × ℕ)
    → absorb_item p n item ≡ ok r
    → Writes p n
    → n ≤ max_directives
    → Writes r.0 r.1 × (r.1 ≤ max_directives)
unfolding absorb_item
absorb_item-Writes p n (directive raw) r h w k =
    let (n', h₁, counted) = ok_parts _ (count_one n) h in
    let (verdict, h₂, taken) = ok_parts _ (classify raw top_level) h₁ in
    let (same, below) = count_one_lem n n' counted in
    subst (λ x. Writes x.0 x.1 × (x.1 ≤ max_directives)) (ok-injective h₂)
      (
        subst (Writes (absorb p verdict)) (sym same)
            (absorb-Writes p verdict n w (classify-IsSound raw top_level verdict taken)),
        below,
      )
absorb_item-Writes p n (block b) r h w k = elim (Bool-cases (text_eq b.tag connection_tag)) [
  | inl same ↦
      let (c, h₁, parsed) = ok_parts _ (parse_connection b n) (rw (same, if◌then◌else◌) at h) in
      let (filled, below) = parse_connection-IsFilled b n c parsed k in
      subst (λ x. Writes x.0 x.1 × (x.1 ≤ max_directives)) (ok-injective h₁)
        (with_connection p c.0 n c.1 w filled, below)
  | inr other ↦
      let (p', h₁, taken) = ok_parts _ (absorb_inline p b) (rw (other, if◌then◌else◌) at h) in
      subst (λ x. Writes x.0 x.1 × (x.1 ≤ max_directives)) (ok-injective h₁)
        (absorb_inline-Writes p b p' n taken w, k)
]

absorb_items-Writes :
    (items : List Item) (p : Profile) (n : ℕ) (r : Profile × ℕ)
    → absorb_items items p n ≡ ok r
    → Writes p n
    → n ≤ max_directives
    → Writes r.0 r.1 × (r.1 ≤ max_directives)
unfolding absorb_items
absorb_items-Writes [] p n r h w k =
    subst (λ x. Writes x.0 x.1 × (x.1 ≤ max_directives)) (ok-injective h) (w, k)
absorb_items-Writes (item ∷ rest) p n r h w k =
    let (s, h₁, taken) = ok_parts _ (absorb_item p n item) h in
    let (w', k') = absorb_item-Writes p n item s taken w k in
    absorb_items-Writes rest s.0 s.1 r h₁ w' k'

-- The lexer reads the written line back as the name and the arguments.
abbrev pub ReadsBack : EmittedDirective → Type 0
ReadsBack d = (n : ℕ) → tokenize (show_directive d) n ≡ ok (d.name ∷ d.args)

lines-ReadsBack : (ds : List EmittedDirective) → All IsEmittable ds → All ReadsBack ds
lines-ReadsBack [] h = tt
lines-ReadsBack (d ∷ ds) h = (λ n. tokenize-show_directive d n h.0, lines-ReadsBack ds h.1)

inside-ReadsBack :
    (cs : List ConnectionBlock) → All AllEmittable cs → All (λ c. All ReadsBack c.directives) cs
inside-ReadsBack [] h = tt
inside-ReadsBack (c ∷ cs) h = (lines-ReadsBack c.directives h.0, inside-ReadsBack cs h.1)

pub record IsCanonical (p : Profile) : Type 0 where
  pub top : All ReadsBack p.directives
  pub inside : All (λ c. All ReadsBack c.directives) p.connections
  pub bounded : written p ≤ max_directives
  pub lined : lines (to_canonical_config p) ≡ canonical_lines p

-- The configuration that is written for a profile which `parse_profile` took has, line by line, one
-- line for each directive, then each `<connection>` block with one line for each directive of it
-- between the lines of its tags, then the lines of the inline blocks. There are at most 256
-- directives, and the lexer reads the line of each back as that directive's name and arguments,
-- whatever the number of the line.
pub parse_profile-IsCanonical :
    (input : Text) (p : Profile) → parse_profile input ≡ ok p → IsCanonical p
unfolding parse_profile checked
parse_profile-IsCanonical input p h = elim (Bool-cases (ltb max_file_bytes (byte_len input))) [
  | inl large ↦ cc (rw large at h)
  | inr fits ↦
      let (items, h₁, _) = ok_parts _ (lex input 1) (rw (fits, if◌then◌else◌) at h) in
      let (r, h₂, taken) = ok_parts _ (absorb_items items empty_parts 0) h₁ in
      let (_, same) = passed_both (r.1 == 0 && is_empty (r.0).inline) _ _ _ r.0 p h₂ in
      let (w, k) =
        absorb_items-Writes items empty_parts 0 r taken
          (record { top = tt; inside = tt; counted = omega arith }) (omega arith) in
      subst IsCanonical same (record {
        top = lines-ReadsBack (r.0).directives w.top;
        inside = inside-ReadsBack (r.0).connections w.inside;
        bounded = omega (arith, w.counted, k);
        lined = lines-to_canonical_config r.0 w.top w.inside;
      })
]

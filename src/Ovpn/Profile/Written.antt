-- ===== src/Ovpn/Profile/Written.antt =====
-- What `to_canonical_config` of shared/src/ovpn/profile.rs writes of a profile that
-- `parse_profile` of mod.rs took.
use thisconnect.Prelude.{
  ℕ, ◌+◌, ◌≤◌, ◌≡◌, refl, sym, subst, inl, inr, List, [], ◌∷◌, ◌++◌, arith, ltb, if◌then◌else◌,
  Bool-cases, Result, ok, ok-injective, length, length-append, All, All-append, ok_parts,
}
use thisconnect.Prelude.Text.{codes, within, is_whitespace}
use thisconnect.Ovpn.Error.{ValidationError, max_directives}
use thisconnect.Ovpn.Lexer.{Item, directive, block, RawBlock, RawDirective, lex}
use thisconnect.Ovpn.Types.{remote_directive, EmittedDirective, bare}
use thisconnect.Ovpn.Directive.{
  Classified, emit, remote, route, redirect_gateway, dhcp_option, auth_user_pass, ignored,
  static_challenge, classify, connection,
}
use thisconnect.Ovpn.Emission.{IsEmittable}
use thisconnect.Ovpn.Emission.Accepted.{IsSound}
use thisconnect.Ovpn.Emission.Verdicts.{classify-IsSound}
use thisconnect.Ovpn.Profile.{
  Profile, ConnectionBlock, count_one, absorb, absorb_connection, connection_items,
  parse_connection,
}

abbrev pub written_inside : List ConnectionBlock → ℕ
written_inside [] = 0
written_inside (c ∷ cs) = length c.directives + written_inside cs

-- The number of directives that the canonical configuration has.
abbrev pub written : Profile → ℕ
written p = length p.directives + written_inside p.connections

abbrev pub AllEmittable : ConnectionBlock → Type 0
AllEmittable c = All IsEmittable c.directives

-- All that is collected can be written, and no more of it than `n` directives.
pub record IsWritable (ds : List EmittedDirective) (cs : List ConnectionBlock) (n : ℕ)
    : Type 0 where
  pub top : All IsEmittable ds
  pub inside : All AllEmittable cs
  pub counted : length ds + written_inside cs ≤ n

abbrev pub Writes : Profile → ℕ → Type 0
Writes p n = IsWritable p.directives p.connections n

pub count_one_lem : (n n' : ℕ) → count_one n ≡ ok n' → (n' ≡ n + 1) × (n' ≤ max_directives)
unfolding count_one
count_one_lem n n' h = elim (Bool-cases (ltb max_directives (n + 1))) [
  | inl over ↦ cc (rw over at h)
  | inr within ↦
      let same = ok-injective (rw (within, if◌then◌else◌) at h) in (sym same, ground arith)
]

one_more :
    (ds : List EmittedDirective) (cs : List ConnectionBlock) (d : EmittedDirective) (n : ℕ)
    → IsWritable ds cs n
    → IsEmittable d
    → IsWritable (ds ++ d ∷ []) cs (n + 1)
one_more ds cs d n w e = record {
  top = All-append IsEmittable ds (d ∷ []) w.top (e, tt);
  inside = w.inside;
  counted = omega (arith, length-append {0} ds (d ∷ []), w.counted);
}

no_more :
    (ds : List EmittedDirective) (cs : List ConnectionBlock) (n : ℕ)
    → IsWritable ds cs n
    → IsWritable ds cs (n + 1)
no_more ds cs n w = record { top = w.top; inside = w.inside; counted = omega (arith, w.counted) }

auth_user_pass-IsEmittable : IsEmittable (bare (codes "auth-user-pass"))
unfolding bare is_whitespace
auth_user_pass-IsEmittable = record { named = omega arith; plain_name = refl; allowed = tt }

pub absorb-Writes :
    (p : Profile) (v : Classified) (n : ℕ) → Writes p n → IsSound v → Writes (absorb p v) (n + 1)
unfolding absorb
absorb-Writes p (emit d) n w s = one_more p.directives p.connections _ n w s
absorb-Writes p (remote r) n w s = one_more p.directives p.connections _ n w s
absorb-Writes p auth_user_pass n w s =
    one_more p.directives p.connections _ n w auth_user_pass-IsEmittable
absorb-Writes p (static_challenge c) n w s = one_more p.directives p.connections _ n w s
absorb-Writes p (route r) n w s = no_more p.directives p.connections n w
absorb-Writes p (redirect_gateway r) n w s = no_more p.directives p.connections n w
absorb-Writes p (dhcp_option o) n w s = no_more p.directives p.connections n w
absorb-Writes p ignored n w s = no_more p.directives p.connections n w

-- A `<connection>` block that began with the count at `n` and has it at `m` now.
pub record IsFilled (c : ConnectionBlock) (n m : ℕ) : Type 0 where
  pub directives : AllEmittable c
  pub counted : n + length c.directives ≤ m

one_more_line :
    (c : ConnectionBlock) (d : EmittedDirective) (n m : ℕ)
    → IsFilled c n m
    → IsEmittable d
    → All IsEmittable (c.directives ++ d ∷ []) × (n + length (c.directives ++ d ∷ []) ≤ m + 1)
one_more_line c d n m f e = (
  All-append IsEmittable c.directives (d ∷ []) f.directives (e, tt),
  omega (arith, length-append {0} c.directives (d ∷ []), f.counted),
)

extended-IsFilled :
    (c c' : ConnectionBlock) (n m : ℕ)
    → ◌≡◌ {A = Result ValidationError ConnectionBlock} (ok c) (ok c')
    → All IsEmittable c.directives × (n + length c.directives ≤ m)
    → IsFilled c' n m
extended-IsFilled c c' n m h f =
    subst (λ x. IsFilled x n m) (ok-injective h) (record { directives = f.0; counted = f.1 })

absorb_connection-IsFilled :
    (raw : RawDirective) (c c' : ConnectionBlock) (v : Classified) (n m : ℕ)
    → absorb_connection raw c v ≡ ok c'
    → IsFilled c n m
    → IsSound v
    → IsFilled c' n (m + 1)
unfolding absorb_connection
absorb_connection-IsFilled raw c c' (emit d) n m h f s =
    extended-IsFilled _ c' n (m + 1) h (one_more_line c d n m f s)
absorb_connection-IsFilled raw c c' (remote r) n m h f s =
    extended-IsFilled _ c' n (m + 1) h (one_more_line c (remote_directive r) n m f s)
absorb_connection-IsFilled raw c c' _ n m h f s = cc

connection_items-IsFilled :
    (items : List Item) (c : ConnectionBlock) (n m : ℕ) (r : ConnectionBlock × ℕ)
    → connection_items items c m ≡ ok r
    → IsFilled c n m
    → m ≤ max_directives
    → IsFilled r.0 n r.1 × (r.1 ≤ max_directives)
unfolding connection_items
connection_items-IsFilled [] c n m r h f b =
    subst (λ x. IsFilled x.0 n x.1 × (x.1 ≤ max_directives)) (ok-injective h) (f, b)
connection_items-IsFilled (block inner ∷ rest) c n m r h f b = cc
connection_items-IsFilled (directive raw ∷ rest) c n m r h f b =
    let (m', h₁, counted) = ok_parts _ (count_one m) h in
    let (verdict, h₂, taken) = ok_parts _ (classify raw connection) h₁ in
    let (c', h₃, absorbed) = ok_parts _ (absorb_connection raw c verdict) h₂ in
    let (same, below) = count_one_lem m m' counted in
    connection_items-IsFilled rest c' n m' r h₃
      (subst (IsFilled c' n) (sym same) (
        absorb_connection-IsFilled raw c c' verdict n m absorbed f
          (classify-IsSound raw connection verdict taken)))
      below

pub parse_connection-IsFilled :
    (b : RawBlock) (n : ℕ) (r : ConnectionBlock × ℕ)
    → parse_connection b n ≡ ok r
    → n ≤ max_directives
    → IsFilled r.0 n r.1 × (r.1 ≤ max_directives)
unfolding parse_connection
parse_connection-IsFilled b n r h k =
    let (items, h₁, _) = ok_parts _ (lex b.body (b.line + 1)) h in
    connection_items-IsFilled items _ n n r h₁ (record { directives = tt; counted = omega arith }) k

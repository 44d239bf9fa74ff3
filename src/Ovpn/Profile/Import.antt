-- ===== src/Ovpn/Profile/Import.antt =====
-- What a profile that `parse_profile` of shared/src/ovpn/mod.rs takes has passed.
use thisconnect.Prelude.{
  ℕ, ◌+◌, ◌≡◌, refl, subst, ◌⊎◌, inl, inr, Bool, true, false, not, ◌&&◌, List, [], ◌∷◌, arith, ltb,
  ◌==◌, if◌then◌else◌, Bool-cases, Result, ok, err, ok-injective, is_empty, All, ok_parts,
}
use thisconnect.Prelude.Text.{Text, text_eq, byte_len}
use thisconnect.Ovpn.Error.{ValidationError, max_file_bytes}
use thisconnect.Ovpn.Lexer.{Item, directive, block, RawBlock, lex}
use thisconnect.Ovpn.Directive.{classify, is_inline_material, top_level, connection}
use thisconnect.Ovpn.Profile.{
  Profile, ConnectionBlock, empty_parts, connection_tag, has_remote, count_one, absorb_connection,
  connection_items, parse_connection, absorb_inline, absorb_item, absorb_items, checked,
  parse_profile,
}
use thisconnect.Ovpn.Profile.Vetted.{IsVetted, classify-IsVetted}

abbrev pub IsVettedInside : Item → Type 0
IsVettedInside (directive raw) = IsVetted connection raw
IsVettedInside (block inner) = ⊥

-- The body of a `<connection>` block has vetted directives and no block.
pub record IsVettedConnection (b : RawBlock) : Type 0 where
  pub items : List Item
  pub lexed : lex b.body (b.line + 1) ≡ ok items
  pub inside : All IsVettedInside items

abbrev pub IsVettedItem : Item → Type 0
IsVettedItem (directive raw) = IsVetted top_level raw
IsVettedItem (block b) =
    ((text_eq b.tag connection_tag ≡ true) × IsVettedConnection b)
    ⊎ (is_inline_material b.tag ≡ true)

connection_items-IsVetted :
    (items : List Item) (c : ConnectionBlock) (n : ℕ) (r : ConnectionBlock × ℕ)
    → connection_items items c n ≡ ok r
    → All IsVettedInside items
unfolding connection_items
connection_items-IsVetted [] c n r h = tt
connection_items-IsVetted (block inner ∷ rest) c n r h = cc
connection_items-IsVetted (directive raw ∷ rest) c n r h =
    let (n', h₁, _) = ok_parts _ (count_one n) h in
    let (verdict, h₂, vetted) = ok_parts _ (classify raw connection) h₁ in
    let (c', h₃, _) = ok_parts _ (absorb_connection raw c verdict) h₂ in
    (classify-IsVetted connection raw verdict vetted, connection_items-IsVetted rest c' n' r h₃)

parse_connection-IsVetted :
    (b : RawBlock) (n : ℕ) (r : ConnectionBlock × ℕ)
    → parse_connection b n ≡ ok r
    → IsVettedConnection b
unfolding parse_connection
parse_connection-IsVetted b n r h =
    let (items, h₁, lexed) = ok_parts _ (lex b.body (b.line + 1)) h in
    record { items = items; lexed = lexed; inside = connection_items-IsVetted items _ n r h₁ }

absorb_inline-is_material :
    (parts : Profile) (b : RawBlock) (parts' : Profile)
    → absorb_inline parts b ≡ ok parts'
    → is_inline_material b.tag ≡ true
unfolding absorb_inline
absorb_inline-is_material parts b parts' h = ground (arith)

absorb_item-IsVetted :
    (parts : Profile) (n : ℕ) (item : Item) (r : Profile × ℕ)
    → absorb_item parts n item ≡ ok r
    → IsVettedItem item
unfolding absorb_item
absorb_item-IsVetted parts n (directive raw) r h =
    let (n', h₁, _) = ok_parts _ (count_one n) h in
    let (verdict, _, vetted) = ok_parts _ (classify raw top_level) h₁ in
    classify-IsVetted top_level raw verdict vetted
absorb_item-IsVetted parts n (block b) r h = elim (Bool-cases (text_eq b.tag connection_tag)) [
  | inl same ↦
      let (c, _, parsed) = ok_parts _ (parse_connection b n) (rw (same, if◌then◌else◌) at h) in
      inl (same, parse_connection-IsVetted b n c parsed)
  | inr other ↦
      let (parts', _, taken) =
        ok_parts _ (absorb_inline parts b) (rw (other, if◌then◌else◌) at h) in
      inr (absorb_inline-is_material parts b parts' taken)
]

absorb_items-IsVetted :
    (items : List Item) (parts : Profile) (n : ℕ) (r : Profile × ℕ)
    → absorb_items items parts n ≡ ok r
    → All IsVettedItem items
unfolding absorb_items
absorb_items-IsVetted [] parts n r h = tt
absorb_items-IsVetted (item ∷ rest) parts n r h =
    let (s, h₁, taken) = ok_parts _ (absorb_item parts n item) h in
    (absorb_item-IsVetted parts n item s taken, absorb_items-IsVetted rest s.0 s.1 r h₁)

pub record IsImported (input : Text) (p : Profile) : Type 0 where
  pub items : List Item
  pub lexed : lex input 1 ≡ ok items
  pub vetted : All IsVettedItem items
  pub reachable : has_remote p ≡ true

pub passed_both :
    (b c : Bool) (e e' : ValidationError) (x p : Profile)
    → ◌≡◌ {A = Result ValidationError Profile}
        (if b then err e else if not c then err e' else ok x)
        (ok p)
    → (c ≡ true) × (x ≡ p)
passed_both true c e e' x p h = cc
passed_both false true e e' x p h = (refl, ok-injective h)
passed_both false false e e' x p h = cc

checked-has_remote :
    (parts : Profile) (n : ℕ) (p : Profile) → checked parts n ≡ ok p → has_remote p ≡ true
unfolding checked
checked-has_remote parts n p h =
    let (some_remote, same) =
      passed_both (n == 0 && is_empty parts.inline) (has_remote parts) _ _ parts p h in
    subst (λ q. has_remote q ≡ true) same some_remote

-- Where `parse_profile` takes a profile, its text lexes, and each directive of it is one that the
-- allowlist has classified in its scope and that is harmless: its name does not begin with
-- `management` and is not in the table of refused directives, it asks for no tap device, no
-- built-in dns handler and no variable that is not inert, and its arguments have only the
-- validator's characters and name no parent directory. Each block is either inline material or a
-- `<connection>` block that holds no block and only such directives, all of them valid there; and
-- the profile names a remote.
pub parse_profile-IsImported :
    (input : Text) (p : Profile) → parse_profile input ≡ ok p → IsImported input p
unfolding parse_profile
parse_profile-IsImported input p h = elim (Bool-cases (ltb max_file_bytes (byte_len input))) [
  | inl large ↦ cc (rw large at h)
  | inr fits ↦
      let (items, h₁, lexed) = ok_parts _ (lex input 1) (rw (fits, if◌then◌else◌) at h) in
      let (r, h₂, taken) = ok_parts _ (absorb_items items empty_parts 0) h₁ in
      record {
        items = items;
        lexed = lexed;
        vetted = absorb_items-IsVetted items empty_parts 0 r taken;
        reachable = checked-has_remote r.0 r.1 p h₂;
      }
]

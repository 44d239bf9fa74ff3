-- ===== src/Ovpn/Profile.antt =====
-- shared/src/ovpn/mod.rs: `parse_profile`, and the profile's accessors of profile.rs.
pub mod Vetted
pub mod Import
pub mod Written
pub mod Lined
pub mod Canonical
use thisconnect.Prelude.{
  ℕ, ◌+◌, ◌-◌, ◌/◌, ◌<◌, Bool, true, false, not, ◌&&◌, ◌||◌, Option, none, some, List, [], ◌∷◌,
  ◌++◌, ltb, ◌==◌, if◌then◌else◌, Result, ok, err, get_elem?, is_empty, any, ◌>>=◌, ◌>>◌,
}
use thisconnect.Prelude.Text.{Text, codes, text_eq, byte_len}
use thisconnect.Ovpn.Error.{
  ValidationError, file_too_large, too_many_directives, forbidden_inline_tag, duplicate_inline_tag,
  nested_inline_block, forbidden_directive, empty_profile, missing_remote, max_file_bytes,
  max_directives,
}
use thisconnect.Ovpn.Lexer.{Item, directive, block, RawBlock, RawDirective, lex}
use thisconnect.Ovpn.Types.{
  EmittedDirective, bare, show_directive, Remote, RouteDirective, RedirectGateway, DhcpOption,
  StaticChallenge, remote_directive, challenge_directive,
}
use thisconnect.Ovpn.Directive.{
  Classified, emit, remote, route, redirect_gateway, dhcp_option, auth_user_pass, ignored,
  static_challenge, classify, is_inline_material, top_level, connection,
}

pub record ConnectionBlock : Type 0 where
  pub directives : List EmittedDirective
  pub remotes : List Remote

pub record InlineMaterial : Type 0 where
  pub tag : Text
  pub body : Text

-- `ProfileParts` and `Profile`, which have the same fields.
pub record Profile : Type 0 where
  pub directives : List EmittedDirective
  pub connections : List ConnectionBlock
  pub inline : List InlineMaterial
  pub remotes : List Remote
  pub routes : List RouteDirective
  pub redirect_gateway : List RedirectGateway
  pub dhcp_options : List DhcpOption
  pub needs_auth_user_pass : Bool
  pub static_challenge : Option StaticChallenge

abbrev pub empty_parts : Profile
empty_parts = record {
  directives = [];
  connections = [];
  inline = [];
  remotes = [];
  routes = [];
  redirect_gateway = [];
  dhcp_options = [];
  needs_auth_user_pass = false;
  static_challenge = none;
}

unfoldable pub absorb : Profile → Classified → Profile
unfolding remote_directive challenge_directive bare
absorb parts (emit d) = record parts { directives = parts.directives ++ d ∷ [] }
absorb parts (remote r) = record parts {
  directives = parts.directives ++ remote_directive r ∷ [];
  remotes = parts.remotes ++ r ∷ [];
}
absorb parts auth_user_pass = record parts {
  needs_auth_user_pass = true;
  directives = parts.directives ++ bare (codes "auth-user-pass") ∷ [];
}
absorb parts (static_challenge c) = record parts {
  directives = parts.directives ++ challenge_directive c ∷ [];
  static_challenge = some c;
}
absorb parts (route r) = record parts { routes = parts.routes ++ r ∷ [] }
absorb parts (redirect_gateway r) = record parts {
  redirect_gateway = parts.redirect_gateway ++ r ∷ [];
}
absorb parts (dhcp_option o) = record parts { dhcp_options = parts.dhcp_options ++ o ∷ [] }
absorb parts ignored = parts

-- `*directive_count += 1` and the test behind it
unfoldable pub count_one : ℕ → Result ValidationError ℕ
count_one n =
    if ltb max_directives (n + 1) then err (too_many_directives max_directives) else ok (n + 1)

-- the `match` on what a line of a `<connection>` block is
unfoldable pub absorb_connection :
    RawDirective → ConnectionBlock → Classified → Result ValidationError ConnectionBlock
unfolding remote_directive
absorb_connection raw c (emit d) = ok (record c { directives = c.directives ++ d ∷ [] })
absorb_connection raw c (remote r) =
    ok (record {
      directives = c.directives ++ remote_directive r ∷ [];
      remotes = c.remotes ++ r ∷ [];
    })
absorb_connection raw c _ =
    err (forbidden_directive raw.line raw.name (codes "not valid inside a <connection> block"))

-- the loop of `parse_connection`, with the count of directives
unfoldable pub connection_items :
    List Item → ConnectionBlock → ℕ → Result ValidationError (ConnectionBlock × ℕ)
unfolding count_one absorb_connection classify
connection_items [] c n = ok (c, n)
connection_items (block inner ∷ rest) c n = err (nested_inline_block inner.line inner.tag)
connection_items (directive raw ∷ rest) c n = do
  n' ← count_one n
  verdict ← classify raw connection
  c' ← absorb_connection raw c verdict
  connection_items rest c' n'

unfoldable pub parse_connection : RawBlock → ℕ → Result ValidationError (ConnectionBlock × ℕ)
unfolding lex connection_items
parse_connection b n = do
  items ← lex b.body (b.line + 1)
  connection_items items (record { directives = []; remotes = [] }) n

unfoldable pub absorb_inline : Profile → RawBlock → Result ValidationError Profile
unfolding is_inline_material text_eq
absorb_inline parts b =
    if not (is_inline_material b.tag)
    then err (forbidden_inline_tag b.line b.tag)
    else if any (λ m. text_eq m.tag b.tag) parts.inline
    then err (duplicate_inline_tag b.line b.tag)
    else ok (record parts { inline = parts.inline ++ record { tag = b.tag; body = b.body } ∷ [] })

abbrev pub connection_tag : Text
connection_tag = codes "connection"

-- one turn of the loop of `parse_profile`
unfoldable pub absorb_item : Profile → ℕ → Item → Result ValidationError (Profile × ℕ)
unfolding count_one classify absorb absorb_inline parse_connection text_eq
absorb_item parts n (directive raw) = do
  n' ← count_one n
  verdict ← classify raw top_level
  ok (absorb parts verdict, n')
absorb_item parts n (block b) =
    if text_eq b.tag connection_tag
    then (parse_connection b n >>= λ r.
        ok (record parts { connections = parts.connections ++ r.0 ∷ [] }, r.1))
    else (absorb_inline parts b >>= λ parts'. ok (parts', n))

unfoldable pub absorb_items : List Item → Profile → ℕ → Result ValidationError (Profile × ℕ)
unfolding absorb_item
absorb_items [] parts n = ok (parts, n)
absorb_items (item ∷ rest) parts n = do r ← absorb_item parts n item; absorb_items rest r.0 r.1

abbrev pub has_remote : Profile → Bool
has_remote parts =
    not (is_empty parts.remotes) || any (λ c. not (is_empty c.remotes)) parts.connections

-- the tests behind the loop
unfoldable pub checked : Profile → ℕ → Result ValidationError Profile
checked parts n =
    if n == 0 && is_empty parts.inline
    then err empty_profile
    else if not (has_remote parts)
    then err missing_remote
    else ok parts

unfoldable pub parse_profile : Text → Result ValidationError Profile
unfolding lex absorb_items checked
parse_profile input =
    if ltb max_file_bytes (byte_len input)
    then err (file_too_large (byte_len input) max_file_bytes)
    else (do items ← lex input 1; r ← absorb_items items empty_parts 0; checked r.0 r.1)

-- `Profile::dhcp_dns_servers`
unfoldable pub dhcp_dns_servers : List DhcpOption → List Text
unfolding text_eq
dhcp_dns_servers [] = []
dhcp_dns_servers (o ∷ rest) =
    let later = dhcp_dns_servers rest in
    if text_eq o.kind (codes "DNS") || text_eq o.kind (codes "DNS6")
    then elim (get_elem? o.values 0) [ none ↦ later | some server ↦ server ∷ later ]
    else later

unfoldable pub directive_lines : List EmittedDirective → Text
unfolding show_directive
directive_lines [] = []
directive_lines (d ∷ ds) = show_directive d ++ (b'\n' ∷ directive_lines ds)

unfoldable pub connection_lines : List ConnectionBlock → Text
unfolding directive_lines
connection_lines [] = []
connection_lines (c ∷ cs) =
    codes "<connection>\n"
    ++ (directive_lines c.directives ++ (codes "</connection>\n" ++ connection_lines cs))

unfoldable pub ends_with_newline : Text → Bool
ends_with_newline [] = false
ends_with_newline (c ∷ []) = c == b'\n'
ends_with_newline (c ∷ d ∷ t) = ends_with_newline (d ∷ t)

unfoldable pub inline_lines : List InlineMaterial → Text
unfolding ends_with_newline
inline_lines [] = []
inline_lines (m ∷ ms) =
    b'<'
    ∷ (m.tag
        ++ (codes ">\n"
            ++ (m.body
                ++ ((if ends_with_newline m.body then [] else codes "\n")
                    ++ (codes "</" ++ (m.tag ++ (codes ">\n" ++ inline_lines ms)))))))

unfoldable pub to_canonical_config : Profile → Text
unfolding directive_lines connection_lines inline_lines
to_canonical_config p =
    directive_lines p.directives ++ (connection_lines p.connections ++ inline_lines p.inline)

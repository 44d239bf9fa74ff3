-- ===== src/Ovpn/Examples.antt =====
-- A profile of two servers, imported, and the directives that it is written with.
use thisconnect.Prelude.{◌≡◌, refl, false, none, some, [], ◌∷◌, ok, all, All, true, ◌≤◌, List}
use thisconnect.Prelude.Text.{Text, codes, is_whitespace, is_ascii_alphanumeric, byte_len}
use thisconnect.Net.{v4}
use thisconnect.Ovpn.Types.{tcp, name, ip}
use thisconnect.Ovpn.Error.{max_inline_blocks}
use thisconnect.Ovpn.Lexer.Bounds.{IsLimited, count_blocks}
use thisconnect.Ovpn.Lexer.Limited.{lex-IsLimited}
use thisconnect.Ovpn.Lexer.{
  Item, directive, block, fresh, lex, lex_lines, lex_line, lex_outside, finish_tokens, scan_all,
  scan, lex_inside, close_tag,
}
use thisconnect.Ovpn.Lexer.Tokens.{is_plain, escaped_start_is_glued}
use thisconnect.Ovpn.Profile.{Profile, parse_profile, to_canonical_config}
use thisconnect.Ovpn.Profile.Import.{IsImported, parse_profile-IsImported}
use thisconnect.Ovpn.Profile.Canonical.{IsCanonical, parse_profile-IsCanonical}

abbrev sample : Text
sample = codes "client\nremote a.b\n<connection>\nremote 10.0.0.1 443 tcp\n</connection>\n"

abbrev sample_profile : Profile
sample_profile = record {
  directives =
      record { name = codes "client"; args = [] }
      ∷ record { name = codes "remote"; args = codes "a.b" ∷ codes "1194" ∷ [] }
      ∷ [];
  connections =
      record {
        directives =
            record {
              name = codes "remote";
              args = codes "10.0.0.1" ∷ codes "443" ∷ codes "tcp" ∷ [];
            }
            ∷ [];
        remotes =
            record { host = ip (v4 (10 ∷ 0 ∷ 0 ∷ 1 ∷ [])); port = 443; proto = some tcp } ∷ [];
      }
      ∷ [];
  inline = [];
  remotes = record { host = name (codes "a.b"); port = 1194; proto = none } ∷ [];
  routes = [];
  redirect_gateway = [];
  dhcp_options = [];
  needs_auth_user_pass = false;
  static_challenge = none;
}

sample_parses : parse_profile sample ≡ ok sample_profile
unfolding parse_profile byte_len lex_lines lex_line lex_outside finish_tokens scan_all scan
    is_ascii_alphanumeric lex_inside close_tag
sample_parses = refl

sample_written :
    to_canonical_config sample_profile
    ≡ codes "client\nremote a.b 1194\n<connection>\nremote 10.0.0.1 443 tcp\n</connection>\n"
unfolding to_canonical_config
sample_written = refl

parse_profile-IsCanonical_example : IsCanonical sample_profile
parse_profile-IsCanonical_example = parse_profile-IsCanonical sample sample_profile sample_parses

parse_profile-IsImported_example : IsImported sample sample_profile
parse_profile-IsImported_example = parse_profile-IsImported sample sample_profile sample_parses

one_blank : all is_whitespace (codes " ") ≡ true
unfolding is_whitespace
one_blank = refl

plain_word : all is_plain (codes "bc") ≡ true
unfolding is_whitespace
plain_word = refl

escaped_start_is_glued_example :
    finish_tokens
      (scan_all (b'\\' ∷ b'a' ∷ codes " bc") (record fresh { tokens = codes "verb" ∷ [] }))
      1
    ≡ ok (codes "verb" ∷ codes "abc" ∷ [])
escaped_start_is_glued_example =
    escaped_start_is_glued b'a' b'b' (codes " ") (codes "c") (codes "verb" ∷ []) 1 one_blank
      plain_word

abbrev with_block : Text
with_block = codes "verb 3\n<ca>\nAB\n</ca>\n"

abbrev with_block_items : List Item
with_block_items =
    directive (record { line = 1; name = codes "verb"; args = codes "3" ∷ [] })
    ∷ block (record { line = 2; tag = codes "ca"; body = codes "AB\n" })
    ∷ []

with_block_lexes : lex with_block 1 ≡ ok with_block_items
unfolding lex lex_lines lex_line lex_outside finish_tokens scan_all scan lex_inside close_tag
    byte_len is_ascii_alphanumeric
with_block_lexes = refl

lex-IsLimited_example :
    All IsLimited with_block_items × (count_blocks with_block_items ≤ max_inline_blocks)
lex-IsLimited_example = lex-IsLimited with_block 1 with_block_items with_block_lexes

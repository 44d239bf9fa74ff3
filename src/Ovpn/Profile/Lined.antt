-- ===== src/Ovpn/Profile/Lined.antt =====
-- The lines of the configuration that `to_canonical_config` of shared/src/ovpn/profile.rs writes.
use thisconnect.Prelude.{
  ℕ, ◌≡◌, refl, sym, ap, ◌∙◌, inl, inr, Bool, true, false, not, ◌||◌, List, [], ◌∷◌, ◌++◌,
  append_assoc, is_empty, arith, ◌==◌, Bool-cases, and-left, and-right, all, all-append, All, map,
}
use thisconnect.Prelude.Text.{Text, codes, is_whitespace, lines}
use thisconnect.Ovpn.Args.{is_allowed_char}
use thisconnect.Ovpn.Lexer.Tokens.{is_plain}
use thisconnect.Ovpn.Types.{EmittedDirective, has_space, show_arg, show_args, show_directive}
use thisconnect.Ovpn.Emission.{AllAllowed, IsEmittable, allowed_is_plain}
use thisconnect.Ovpn.Profile.{
  Profile, ConnectionBlock, directive_lines, connection_lines, inline_lines, to_canonical_config,
}
use thisconnect.Ovpn.Profile.Written.{AllEmittable}

-- A character that ends no line.
abbrev pub stays_in_line : ℕ → Bool
stays_in_line c = not (c == b'\n' || c == b'\r')

pub lines-line :
    (t rest : Text) → all stays_in_line t ≡ true → lines (t ++ (b'\n' ∷ rest)) ≡ t ∷ lines rest
unfolding lines
lines-line [] rest h = refl
lines-line (c ∷ t) rest h =
    let feed : (c == b'\n') ≡ false = ground (arith, and-left (stays_in_line c) _ h) in
    let return : (c == b'\r') ≡ false = ground (arith, and-left (stays_in_line c) _ h) in
    rw (feed, return, lines-line t rest (and-right (stays_in_line c) _ h)) refl

plain_stays : (c : ℕ) → is_plain c ≡ true → stays_in_line c ≡ true
unfolding is_whitespace
plain_stays c h = ground (arith, h)

allowed_stays : (c : ℕ) → is_allowed_char c ≡ true → stays_in_line c ≡ true
allowed_stays c h = elim (Bool-cases (c == b' ')) [
  | inl space ↦ ground (arith, space)
  | inr solid ↦ plain_stays c (allowed_is_plain c h solid)
]

all_stay :
    (f : ℕ → Bool)
    → ((c : ℕ) → f c ≡ true → stays_in_line c ≡ true)
    → (t : Text) → all f t ≡ true
    → all stays_in_line t ≡ true
all_stay f k [] h = refl
all_stay f k (c ∷ t) h = rw (k c (and-left (f c) _ h), all_stay f k t (and-right (f c) _ h)) refl

show_arg-stays : (a : Text) → all is_allowed_char a ≡ true → all stays_in_line (show_arg a) ≡ true
unfolding show_arg
show_arg-stays a h =
    let inner = all_stay is_allowed_char allowed_stays a h in
    elim (Bool-cases (is_empty a || has_space a)) [
      | inl quoted ↦ rw quoted (all-append stays_in_line a (b'"' ∷ []) ∙ rw inner refl)
      | inr bare ↦ rw bare inner
    ]

show_args-stay : (args : List Text) → AllAllowed args → all stays_in_line (show_args args) ≡ true
unfolding show_args
show_args-stay [] h = refl
show_args-stay (a ∷ args) h =
    all-append stays_in_line (show_arg a) (show_args args)
    ∙ rw (show_arg-stays a h.0, show_args-stay args h.1) refl

show_directive-stays :
    (d : EmittedDirective) → IsEmittable d → all stays_in_line (show_directive d) ≡ true
unfolding show_directive
show_directive-stays d h =
    all-append stays_in_line d.name (show_args d.args)
    ∙ rw (all_stay is_plain plain_stays d.name h.plain_name, show_args-stay d.args h.allowed) refl

-- The lines of a block of directives, and those of `<connection>` blocks.
abbrev pub connection_shown : List ConnectionBlock → List Text
connection_shown [] = []
connection_shown (c ∷ cs) =
    (codes "<connection>" ∷ map show_directive c.directives)
    ++ (codes "</connection>" ∷ connection_shown cs)

lines-directive_lines :
    (ds : List EmittedDirective) (rest : Text)
    → All IsEmittable ds
    → lines (directive_lines ds ++ rest) ≡ map show_directive ds ++ lines rest
unfolding directive_lines
lines-directive_lines [] rest h = refl
lines-directive_lines (d ∷ ds) rest h =
    ap lines (append_assoc (show_directive d) (b'\n' ∷ directive_lines ds) rest)
    ∙ lines-line (show_directive d) (directive_lines ds ++ rest) (show_directive-stays d h.0)
    ∙ ap (λ (ls : List Text). show_directive d ∷ ls) (lines-directive_lines ds rest h.1)

lines-connection_lines :
    (cs : List ConnectionBlock) (rest : Text)
    → All AllEmittable cs
    → lines (connection_lines cs ++ rest) ≡ connection_shown cs ++ lines rest
unfolding connection_lines
lines-connection_lines [] rest h = refl
lines-connection_lines (c ∷ cs) rest h =
    let later = connection_lines cs ++ rest in
    let closing = codes "</connection>\n" ++ connection_lines cs in
    ap (λ (t : Text). lines (codes "<connection>\n" ++ t))
      (append_assoc (directive_lines c.directives) closing rest)
    ∙ lines-line (codes "<connection>")
        (directive_lines c.directives ++ (codes "</connection>\n" ++ later)) refl
    ∙ ap (λ (ls : List Text). codes "<connection>" ∷ ls)
        (lines-directive_lines c.directives (codes "</connection>\n" ++ later) h.0
          ∙ ap (λ (ls : List Text). map show_directive c.directives ++ ls)
              (lines-line (codes "</connection>") later refl
                ∙ ap (λ (ls : List Text). codes "</connection>" ∷ ls)
                    (lines-connection_lines cs rest h.1))
          ∙ sym (
              append_assoc (map show_directive c.directives)
                (codes "</connection>" ∷ connection_shown cs) (lines rest)))

-- All lines of a configuration, up to the lines of its inline blocks.
abbrev pub canonical_lines : Profile → List Text
canonical_lines p =
    map show_directive p.directives
    ++ (connection_shown p.connections ++ lines (inline_lines p.inline))

pub lines-to_canonical_config :
    (p : Profile)
    → All IsEmittable p.directives
    → All AllEmittable p.connections
    → lines (to_canonical_config p) ≡ canonical_lines p
unfolding to_canonical_config
lines-to_canonical_config p top inside =
    lines-directive_lines p.directives (connection_lines p.connections ++ inline_lines p.inline) top
    ∙ ap (λ (ls : List Text). map show_directive p.directives ++ ls)
        (lines-connection_lines p.connections (inline_lines p.inline) inside)

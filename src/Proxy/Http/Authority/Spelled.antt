-- ===== src/Proxy/Http/Authority/Spelled.antt =====
-- Every name and port that may be dialled can be asked for from proxy/src/http.rs.
use thisconnect.Prelude.{
  ℕ, ◌≤◌, ◌<◌, ◌≡◌, refl, true, false, none, [], ◌∷◌, ◌++◌, arith, ltb, ◌==◌, and-left, and-right,
  ok, length, is_empty, all, any,
}
use thisconnect.Prelude.Text.{Text, codes, strip_prefix, starts_with, is_ascii_digit, byte_len}
use thisconnect.Prelude.Split.{u16_max}
use thisconnect.Net.{
  parse_ip, show, parse_unsigned-show, length-show, show-is_ascii_digit, show-ne_nil,
}
use thisconnect.Proxy.Socks5.{domain}
use thisconnect.Proxy.Http.{HttpConfig, max_host_len}
use thisconnect.Prelude.Splits.{rsplit_once-append}
use thisconnect.Proxy.Http.Authority.{
  validate_host, parse_port, classify_host, host_target, target_from_authority,
}
use thisconnect.Proxy.Http.Authority.Admissible.{IsAdmissible}

byte_len-digits : (s : Text) → all is_ascii_digit s ≡ true → byte_len s ≡ length s
unfolding byte_len
byte_len-digits [] h = refl
byte_len-digits (c ∷ s) h =
    let narrow : ltb c 0x80 ≡ true =
      ground (arith, and-left (is_ascii_digit c) (all is_ascii_digit s) h) in
    rw (narrow, byte_len-digits s (and-right (is_ascii_digit c) (all is_ascii_digit s) h))
      (omega arith)

digits_hold_no_colon : (s : Text) → all is_ascii_digit s ≡ true → any (λ x. x == b':') s ≡ false
digits_hold_no_colon [] h = refl
digits_hold_no_colon (c ∷ s) h =
    let other : (c == b':') ≡ false =
      ground (arith, and-left (is_ascii_digit c) (all is_ascii_digit s) h) in
    rw (other, digits_hold_no_colon s (and-right (is_ascii_digit c) (all is_ascii_digit s) h)) refl

some_text : (s : Text) → 0 < length s → is_empty s ≡ false
some_text [] h = let k : ⊥ = omega (arith, h) in elim k [ ]
some_text (c ∷ s) h = refl

pub parse_port-show : (port : ℕ) → 0 < port → port ≤ u16_max → parse_port (show port) ≡ ok port
unfolding parse_port
parse_port-show port nonzero fits =
    let digits = show-is_ascii_digit port in
    let short : ltb 5 (byte_len (show port)) ≡ false =
      rw (byte_len-digits (show port) digits)
        (ground (arith, length-show port 4 (omega (arith, fits)))) in
    let some_port : (port == 0) ≡ false = ground (arith, nonzero) in
    rw
      (
        some_text (show port) (show-ne_nil port),
        short,
        digits,
        parse_unsigned-show u16_max port fits,
        some_port,
      )
      refl

unbracketed :
    (host rest : Text)
    → starts_with (codes "[") host ≡ false
    → is_empty host ≡ false
    → strip_prefix (codes "[") (host ++ rest) ≡ none
unfolding starts_with strip_prefix
unbracketed [] rest h k = cc
unbracketed (c ∷ host) rest h k =
    let other : (b'[' == c) ≡ false = ground (arith, h) in rw other refl

-- A name that is admissible, is no address and does not begin with a bracket is taken as the
-- destination when it is asked for with its port in decimal.
pub target_from_authority-show :
    (config : HttpConfig) (host : Text) (port : ℕ)
    → IsAdmissible config (domain host port)
    → parse_ip host ≡ none
    → starts_with (codes "[") host ≡ false
    → target_from_authority (host ++ (b':' ∷ show port)) config ≡ ok (domain host port)
unfolding target_from_authority host_target validate_host classify_host
target_from_authority-show config host port (some_port, fits, some_host, short, printable, plain)
      named unopened =
    let short_host : ltb max_host_len (byte_len host) ≡ false = ground (arith, short) in
    rw
      (
        target_from_authority,
        unbracketed host (b':' ∷ show port) unopened some_host,
        rsplit_once-append b':' host (show port)
            (digits_hold_no_colon (show port) (show-is_ascii_digit port)),
        plain,
        parse_port-show port some_port fits,
        some_host,
        short_host,
        printable,
        named,
      )
      refl

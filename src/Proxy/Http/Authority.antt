-- ===== src/Proxy/Http/Authority.antt =====
-- proxy/src/http.rs: the authority of a request and the destination it names, without a lookup.
pub mod Admissible
pub mod Spelled
use thisconnect.Prelude.{
  ℕ, not, ◌&&◌, ◌||◌, Option, none, some, ltb, ◌==◌, if◌then◌else◌, Result, ok, err, is_empty, all,
  any, ◌>>=◌, ◌>>◌,
}
use thisconnect.Prelude.Text.{Text, codes, strip_prefix, is_ascii_digit, byte_len}
use thisconnect.Prelude.Split.{split_once, rsplit_once, parse_unsigned, u16_max}
use thisconnect.Net.{IpAddr, v6, is_ipv6, parse_ip, parse_v6}
use thisconnect.Proxy.Socks5.{Target, ip, domain}
use thisconnect.Proxy.Socks5.Handshake.{is_printable}
use thisconnect.Proxy.Http.{
  HttpError, invalid_destination, ipv6_unsupported, HttpConfig, max_host_len,
}

unfoldable pub ip_target : IpAddr → ℕ → HttpConfig → Result HttpError Target
ip_target address port config =
    if is_ipv6 address && not config.tunnel_has_v6
    then err ipv6_unsupported
    else ok (ip address port)

-- Every byte of a character outside ASCII is above 0x7e.
unfoldable pub validate_host : Text → Result HttpError Unit
unfolding byte_len
validate_host host =
    if is_empty host
    then err (invalid_destination (codes "empty host"))
    else if ltb max_host_len (byte_len host)
    then err (invalid_destination (codes "host too long"))
    else if any (λ b. not (is_printable b)) host
    then err (invalid_destination (codes "non-printable host"))
    else ok tt

-- the number that a port spells, where it fits
abbrev pub port_in_range : Option ℕ → Result HttpError ℕ
port_in_range none = err (invalid_destination (codes "port out of range"))
port_in_range (some port) =
    if port == 0 then err (invalid_destination (codes "port 0")) else ok port

unfoldable pub parse_port : Text → Result HttpError ℕ
unfolding byte_len parse_unsigned
parse_port raw =
    if is_empty raw || ltb 5 (byte_len raw) || not (all is_ascii_digit raw)
    then err (invalid_destination (codes "bad port"))
    else port_in_range (parse_unsigned u16_max raw)

abbrev pub ok_or : {A : Type 0} → Option A → HttpError → Result HttpError A
ok_or none e = err e
ok_or (some a) e = ok a

-- an authority that begins with a bracket, less the bracket
unfoldable pub bracketed_target : Text → HttpConfig → Result HttpError Target
unfolding split_once strip_prefix parse_v6 parse_port ip_target
bracketed_target rest config = do
  parts ← ok_or (split_once b']' rest) (invalid_destination (codes "unterminated IPv6 literal"))
  port ← ok_or (strip_prefix (codes ":") (parts.1)) (invalid_destination (codes "missing port"))
  address ← ok_or (parse_v6 (parts.0)) (invalid_destination (codes "bad IPv6 literal"))
  number ← parse_port port
  ip_target (v6 address) number config

unfoldable pub classify_host : Option IpAddr → Text → ℕ → HttpConfig → Result HttpError Target
unfolding ip_target
classify_host (some address) host port config = ip_target address port config
classify_host none host port config = ok (domain host port)

-- the two sides of the last colon
unfoldable pub host_target : Text → Text → HttpConfig → Result HttpError Target
unfolding parse_port validate_host parse_ip classify_host
host_target host port config =
    if any (λ c. c == b':') host
    then err (invalid_destination (codes "unbracketed IPv6 literal"))
    else (do
      number ← parse_port port
      validate_host host
      classify_host (parse_ip host) host number config)

unfoldable pub target_from_authority : Text → HttpConfig → Result HttpError Target
unfolding strip_prefix rsplit_once bracketed_target host_target
target_from_authority authority config = elim (strip_prefix (codes "[") authority) [
  | some rest ↦ bracketed_target rest config
  | none ↦ elim (rsplit_once b':' authority) [
    | none ↦ err (invalid_destination (codes "missing port"))
    | some (host, port) ↦ host_target host port config
  ]
]

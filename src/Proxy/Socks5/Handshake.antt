-- ===== src/Proxy/Socks5/Handshake.antt =====
-- The handshake of proxy/src/socks5.rs, up to the destination and the answer to the client.
pub mod Destination
pub mod Sent
pub mod Authenticated
pub mod Welcomed
pub mod Connected
use thisconnect.Prelude.{
  ℕ, zero, ◌+◌, ◌-◌, ◌*◌, Bool, not, ◌&&◌, Option, none, some, [], ◌∷◌, ltb, ◌==◌, if◌then◌else◌,
  Result, ok, err, length, get_elem?, is_empty, any,
}
use thisconnect.Prelude.Text.{Text, Bytes, codes, within}
use thisconnect.Prelude.Exec.{pure, raise, ◌>>=◌, ◌>>◌}
use thisconnect.Net.{IpAddr, v4, v6, is_ipv6, parse_ip}
use thisconnect.Proxy.Socks5.{
  Target, ip, domain, DialError, Socks5Error, no_acceptable_method, auth_failed, auth_rate_limited,
  bad_version, bad_auth_version, command_not_supported, malformed, invalid_destination,
  address_type_not_supported, dial, reply_code, dial_reply_code, Credentials, verify, AuthPolicy,
  required, disabled, Socks5Config, offered_method, ver_socks5, ver_userpass, method_unacceptable,
  auth_ok, auth_denied, cmd_connect, atyp_v4, atyp_domain, atyp_v6, rep_success, max_domain_len,
}
use thisconnect.Proxy.Socks5.Limiter.{has_capacity_at, record_failure_at}
use thisconnect.Proxy.Socks5.Client.{Client, Talk, read_exact, write}

-- Who is connected, and the times at which the throttle is asked and told.
pub record Peer : Type 0 where
  pub address : IpAddr
  pub asked_at : ℕ
  pub told_at : ℕ

abbrev pub byte_at : Bytes → ℕ → ℕ
byte_at bytes i = elim (get_elem? bytes i) [ none ↦ 0 | some b ↦ b ]

unfoldable pub answer_methods : ℕ → Bytes → Talk Unit
unfolding write
answer_methods wanted methods =
    if not (any (λ m. m == wanted) methods)
    then write (ver_socks5 ∷ method_unacceptable ∷ []) >> raise no_acceptable_method
    else write (ver_socks5 ∷ wanted ∷ [])

unfoldable pub greet : Socks5Config → Talk Unit
unfolding read_exact answer_methods
greet config = do
  head ← read_exact 2
  if not (byte_at head 0 == ver_socks5)
      then raise (bad_version (byte_at head 0))
      else if byte_at head 1 == 0
      then raise (malformed (codes "empty method list"))
      else (read_exact (byte_at head 1) >>= answer_methods (offered_method config))

-- `read_exact` into an empty buffer reads nothing.
unfoldable pub read_length_prefixed : Talk Bytes
unfolding read_exact
read_length_prefixed = read_exact 1 >>= λ len. read_exact (byte_at len 0)

unfoldable pub deny_auth : Talk Unit
unfolding write
deny_auth = write (ver_userpass ∷ auth_denied ∷ [])

unfoldable pub has_capacity : Peer → Client → Bool
unfolding has_capacity_at
has_capacity peer w = has_capacity_at peer.address peer.asked_at w.buckets

unfoldable pub record_failure : Peer → Talk Unit
unfolding record_failure_at
record_failure peer w =
    (ok tt, record w { buckets = record_failure_at peer.address peer.told_at w.buckets })

-- what follows the two fields
unfoldable pub judge : Peer → Credentials → Bytes → Bytes → Talk Unit
unfolding has_capacity record_failure deny_auth write verify
judge peer credentials username password w =
    if not (has_capacity peer w)
    then (deny_auth >> raise auth_rate_limited) w
    else if verify credentials username password
    then write (ver_userpass ∷ auth_ok ∷ []) w
    else (record_failure peer >> (deny_auth >> raise auth_failed)) w

unfoldable pub authenticate : Peer → Credentials → Talk Unit
unfolding read_exact read_length_prefixed judge
authenticate peer credentials = do
  version ← read_exact 1
  if not (byte_at version 0 == ver_userpass)
      then raise (bad_auth_version (byte_at version 0))
      else (do
        username ← read_length_prefixed
        password ← read_length_prefixed
        judge peer credentials username password)

unfoldable pub read_port : Talk ℕ
unfolding read_exact
read_port = do port ← read_exact 2; pure (byte_at port 0 * 256 + byte_at port 1)

unfoldable pub finish_ip_target : IpAddr → ℕ → Socks5Config → Result Socks5Error Target
finish_ip_target address port config =
    if is_ipv6 address && not config.tunnel_has_v6
    then err address_type_not_supported
    else if port == 0
    then err (invalid_destination (codes "port 0"))
    else ok (ip address port)

abbrev pub is_printable : ℕ → Bool
is_printable byte = within 0x21 0x7e byte

-- Bytes that pass are ASCII, and so UTF-8.
unfoldable pub validate_hostname : Bytes → Result Socks5Error Text
validate_hostname raw =
    if is_empty raw
    then err (invalid_destination (codes "empty hostname"))
    else if ltb max_domain_len (length raw)
    then err (invalid_destination (codes "hostname too long"))
    else if any (λ b. b == 0) raw
    then err (invalid_destination (codes "NUL in hostname"))
    else if any (λ b. not (is_printable b)) raw
    then err (invalid_destination (codes "non-printable hostname"))
    else ok raw

-- what `domain_target` makes of a valid name
unfoldable pub host_target : Text → ℕ → Socks5Config → Result Socks5Error Target
unfolding parse_ip finish_ip_target
host_target host port config = elim (parse_ip host) [
  | some address ↦ finish_ip_target address port config
  | none ↦ if port == 0 then err (invalid_destination (codes "port 0")) else ok (domain host port)
]

unfoldable pub domain_target : Bytes → ℕ → Socks5Config → Result Socks5Error Target
unfolding validate_hostname host_target
domain_target raw port config = elim (validate_hostname raw) [
  | ok host ↦ host_target host port config
  | err e ↦ err e
]

-- a result that was made without the client
abbrev pub returning : {A : Type 0} → Result Socks5Error A → Client → Result Socks5Error A × Client
returning r w = (r, w)

unfoldable pub read_target : ℕ → Socks5Config → Talk Target
unfolding read_exact read_port read_length_prefixed domain_target finish_ip_target
read_target atyp config =
    if atyp == atyp_v4
    then (do
      octets ← read_exact 4
      port ← read_port
      returning (finish_ip_target (v4 octets) port config))
    else if atyp == atyp_v6
    then (do
      octets ← read_exact 16
      port ← read_port
      returning (finish_ip_target (v6 octets) port config))
    else if atyp == atyp_domain
    then (do
      raw ← read_length_prefixed
      port ← read_port
      returning (domain_target raw port config))
    else raise (malformed (codes "unknown address type"))

unfoldable pub read_request : Socks5Config → Talk Target
unfolding read_exact read_target
read_request config = do
  head ← read_exact 4
  if not (byte_at head 0 == ver_socks5)
      then raise (bad_version (byte_at head 0))
      else if not (byte_at head 2 == 0)
      then raise (malformed (codes "RSV is not zero"))
      else (do
        target ← read_target (byte_at head 3) config
        if not (byte_at head 1 == cmd_connect)
            then raise (command_not_supported (byte_at head 1))
            else pure target)

unfoldable pub write_reply : ℕ → Talk Unit
unfolding write
write_reply reply = write (ver_socks5 ∷ reply ∷ 0x00 ∷ atyp_v4 ∷ 0 ∷ 0 ∷ 0 ∷ 0 ∷ 0 ∷ 0 ∷ [])

-- a refused request is answered where there is a reply for it
unfoldable pub reply_with : Socks5Error → Option ℕ → Talk Target
unfolding write_reply
reply_with e none = raise e
reply_with e (some rep) = write_reply rep >> raise e

unfoldable pub answer_error : Result Socks5Error Target → Talk Target
unfolding reply_code reply_with
answer_error (ok target) = pure target
answer_error (err e) = reply_with e (reply_code e)

unfoldable pub authenticate_if_required : Peer → AuthPolicy → Talk Unit
unfolding authenticate
authenticate_if_required peer (required credentials) = authenticate peer credentials
authenticate_if_required peer disabled = pure tt

unfoldable pub negotiate : Peer → Socks5Config → Talk Target
unfolding greet authenticate_if_required read_request answer_error
negotiate peer config =
    greet config
    >> (authenticate_if_required peer config.auth >> λ w.
        answer_error (read_request config w).0 (read_request config w).1)

-- what follows `dialer.tcp(&target)`: the destination and the opened stream
unfoldable pub answer_dial : {S : Type 0} → Target → Result DialError S → Talk (Target × S)
unfolding write_reply dial_reply_code
answer_dial target (ok upstream) = write_reply rep_success >> pure (target, upstream)
answer_dial target (err e) = write_reply (dial_reply_code e) >> raise (dial e)

-- `handshake`, with the dialer's answer for each destination
unfoldable pub handshake :
    {S : Type 0} → Peer → Socks5Config → (Target → Result DialError S) → Talk (Target × S)
unfolding negotiate answer_dial
handshake peer config dialer =
    negotiate peer config >>= λ target. answer_dial target (dialer target)

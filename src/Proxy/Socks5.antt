-- ===== src/Proxy/Socks5.antt =====
-- proxy/src/socks5.rs: destinations, errors, and the bytes that answer them.
pub mod Limiter
pub mod Client
pub mod Handshake
mod Examples
use thisconnect.Prelude.{ℕ, Bool, ◌&&◌, Option, none, some}
use thisconnect.Prelude.Text.{Text, Bytes, text_eq}
use thisconnect.Net.{IpAddr}

abbrev pub ver_socks5 : ℕ
ver_socks5 = 0x05

abbrev pub ver_userpass : ℕ
ver_userpass = 0x01

abbrev pub method_none : ℕ
method_none = 0x00

abbrev pub method_userpass : ℕ
method_userpass = 0x02

abbrev pub method_unacceptable : ℕ
method_unacceptable = 0xFF

abbrev pub auth_ok : ℕ
auth_ok = 0x00

abbrev pub auth_denied : ℕ
auth_denied = 0x01

abbrev pub cmd_connect : ℕ
cmd_connect = 0x01

abbrev pub atyp_v4 : ℕ
atyp_v4 = 0x01

abbrev pub atyp_domain : ℕ
atyp_domain = 0x03

abbrev pub atyp_v6 : ℕ
atyp_v6 = 0x04

abbrev pub rep_success : ℕ
rep_success = 0x00

abbrev pub max_domain_len : ℕ
max_domain_len = 255

-- `Target`, with the address and the port of a `SocketAddr` apart.
pub data Target : Type 0 where
  ip : IpAddr → ℕ → Target
  domain : Text → ℕ → Target

abbrev pub port_of : Target → ℕ
port_of (ip a port) = port
port_of (domain host port) = port

pub data DialError : Type 0 where
  name_not_resolved host_unreachable network_unreachable connection_refused : DialError
  policy_rejected other : DialError

-- `DialError::reply_code`
unfoldable pub dial_reply_code : DialError → ℕ
dial_reply_code name_not_resolved = 0x04
dial_reply_code host_unreachable = 0x04
dial_reply_code network_unreachable = 0x03
dial_reply_code connection_refused = 0x05
dial_reply_code policy_rejected = 0x02
dial_reply_code other = 0x01

-- An `io::Error` is a read past the end or a write that fails.
pub data IoError : Type 0 where
  unexpected_eof broken_pipe : IoError

pub data Socks5Error : Type 0 where
  io : IoError → Socks5Error
  handshake_timeout no_acceptable_method auth_failed auth_rate_limited : Socks5Error
  bad_version bad_auth_version command_not_supported : ℕ → Socks5Error
  malformed invalid_destination : Text → Socks5Error
  address_type_not_supported : Socks5Error
  dial : DialError → Socks5Error

-- `Socks5Error::reply_code`
unfoldable pub reply_code : Socks5Error → Option ℕ
unfolding dial_reply_code
reply_code (command_not_supported c) = some 0x07
reply_code address_type_not_supported = some 0x08
reply_code (invalid_destination why) = some 0x01
reply_code (dial e) = some (dial_reply_code e)
reply_code _ = none

pub record Credentials : Type 0 where
  pub username : Bytes
  pub password : Bytes

-- `Credentials::verify`, where `ct_eq` is equality.
unfoldable pub verify : Credentials → Bytes → Bytes → Bool
unfolding text_eq
verify c username password = text_eq c.username username && text_eq c.password password

pub data AuthPolicy : Type 0 where
  required : Credentials → AuthPolicy
  disabled : AuthPolicy

-- `Socks5Config`; its timeout is the point at which a silent client has been waited for.
pub record Socks5Config : Type 0 where
  pub auth : AuthPolicy
  pub tunnel_has_v6 : Bool

abbrev pub offered_method : Socks5Config → ℕ
offered_method config = elim config.auth [ required c ↦ method_userpass | disabled ↦ method_none ]

-- ===== src/Proxy/Http.antt =====
-- proxy/src/http.rs: the configuration, the errors, and the status that answers each.
pub mod Client
pub mod Head
pub mod Request
pub mod Authority
pub mod Handshake
mod Examples
use thisconnect.Prelude.{ℕ, ◌-◌, Bool, true, false, Option, none, some}
use thisconnect.Prelude.Text.{Text, codes}
use thisconnect.Proxy.Socks5.{AuthPolicy, DialError}

abbrev pub max_head_bytes : ℕ
max_head_bytes = 8192

abbrev pub max_request_line : ℕ
max_request_line = 1024

abbrev pub max_header_count : ℕ
max_header_count = 64

abbrev pub read_chunk : ℕ
read_chunk = 1024

abbrev pub max_host_len : ℕ
max_host_len = 255

abbrev pub challenge_line : Text
challenge_line = codes "Proxy-Authenticate: Basic realm=\"thisconnect\", charset=\"UTF-8\""

abbrev pub Status : Type 0
Status = ℕ × Text

abbrev pub st_bad_request : Status
st_bad_request = (400, codes "Bad Request")

abbrev pub st_forbidden : Status
st_forbidden = (403, codes "Forbidden")

abbrev pub st_proxy_auth_required : Status
st_proxy_auth_required = (407, codes "Proxy Authentication Required")

abbrev pub st_request_timeout : Status
st_request_timeout = (408, codes "Request Timeout")

abbrev pub st_head_too_large : Status
st_head_too_large = (431, codes "Request Header Fields Too Large")

abbrev pub st_not_implemented : Status
st_not_implemented = (501, codes "Not Implemented")

abbrev pub st_bad_gateway : Status
st_bad_gateway = (502, codes "Bad Gateway")

abbrev pub st_unavailable : Status
st_unavailable = (503, codes "Service Unavailable")

abbrev pub st_gateway_timeout : Status
st_gateway_timeout = (504, codes "Gateway Timeout")

-- `HttpConfig`; its two timeouts are the points at which a silent client, or a dialer that does
-- not answer, has been waited for.
pub record HttpConfig : Type 0 where
  pub auth : AuthPolicy
  pub tunnel_has_v6 : Bool

pub data HttpError : Type 0 where
  broken_io handshake_timeout : HttpError
  malformed : Text → HttpError
  head_too_large too_many_headers : HttpError
  method_not_supported : Text → HttpError
  absolute_form_unsupported : HttpError
  invalid_destination : Text → HttpError
  auth_required auth_failed auth_rate_limited ipv6_unsupported dial_timeout : HttpError
  dial : DialError → HttpError

unfoldable pub dial_status : DialError → Status
dial_status DialError.network_unreachable = st_unavailable
dial_status DialError.policy_rejected = st_forbidden
dial_status _ = st_bad_gateway

-- `HttpError::status`
unfoldable pub status : HttpError → Option Status
unfolding dial_status
status broken_io = none
status handshake_timeout = some st_request_timeout
status (malformed why) = some st_bad_request
status (invalid_destination why) = some st_bad_request
status head_too_large = some st_head_too_large
status too_many_headers = some st_head_too_large
status (method_not_supported method) = some st_not_implemented
status absolute_form_unsupported = some st_not_implemented
status auth_required = some st_proxy_auth_required
status auth_failed = some st_proxy_auth_required
status auth_rate_limited = some st_proxy_auth_required
status ipv6_unsupported = some st_forbidden
status dial_timeout = some st_gateway_timeout
status (dial e) = some (dial_status e)

-- the errors whose answer carries the challenge
abbrev pub is_auth_error : HttpError → Bool
is_auth_error auth_required = true
is_auth_error auth_failed = true
is_auth_error auth_rate_limited = true
is_auth_error _ = false

-- ===== src/Proxy/Http/Request.antt =====
-- proxy/src/http.rs: the request line and the headers of a request head.
pub mod Line
pub mod Framed
pub mod Spelled
use mathlib.Core.List.{reverse}
use thisconnect.Prelude.{
  ℕ, Bool, true, false, not, ◌&&◌, ◌||◌, none, some, List, [], ◌∷◌, ◌++◌, ltb, leb, ◌==◌,
  if◌then◌else◌, Result, ok, err, length, is_empty, all, any, keep, ◌>>=◌, ◌>>◌,
}
use thisconnect.Prelude.Text.{
  Text, codes, text_eq, starts_with, is_ascii_alphanumeric, to_ascii_lowercase, byte_len, lines,
}
use thisconnect.Prelude.Split.{split, split_once}
use thisconnect.Proxy.Http.{
  HttpError, malformed, head_too_large, too_many_headers, method_not_supported,
  absolute_form_unsupported, max_request_line, max_header_count,
}

pub record Header : Type 0 where
  pub name : Text
  pub value : Text

pub record Head : Type 0 where
  pub target : Text
  pub headers : List Header

abbrev pub onto_first_line : ℕ → List Text → List Text
onto_first_line c [] = (c ∷ []) ∷ []
onto_first_line c (l ∷ ls) = (c ∷ l) ∷ ls

-- `head.split("\r\n")`
unfoldable pub split_crlf : Text → List Text
split_crlf [] = [] ∷ []
split_crlf (c ∷ []) = (c ∷ []) ∷ []
split_crlf (c ∷ d ∷ cs) = elim (c == b'\r' && d == b'\n') [
  | true ↦ [] ∷ split_crlf cs
  | false ↦ onto_first_line c (split_crlf (d ∷ cs))
]

unfoldable pub is_ascii : Text → Bool
is_ascii s = all (λ c. ltb c 0x80) s

-- what `parse_request_line` makes of its three parts
unfoldable pub judge_request_line : Text → Text → Text → Result HttpError Text
unfolding text_eq starts_with
judge_request_line method target version =
    if is_empty method || is_empty target
    then err (malformed (codes "empty request line field"))
    else if not (text_eq version (codes "HTTP/1.1")) && not (text_eq version (codes "HTTP/1.0"))
    then err (malformed (codes "unsupported HTTP version"))
    else if not (text_eq method (codes "CONNECT"))
    then (if starts_with (codes "http://") target || starts_with (codes "https://") target
        then err absolute_form_unsupported
        else err (method_not_supported method))
    else ok target

unfoldable pub request_line_parts : List Text → Result HttpError Text
unfolding judge_request_line
request_line_parts [] = err (malformed (codes "truncated request line"))
request_line_parts (method ∷ []) = err (malformed (codes "truncated request line"))
request_line_parts (method ∷ target ∷ []) = err (malformed (codes "truncated request line"))
request_line_parts (method ∷ target ∷ version ∷ []) = judge_request_line method target version
request_line_parts (method ∷ target ∷ version ∷ more ∷ rest) =
    err (malformed (codes "trailing data in request line"))

unfoldable pub parse_request_line : Text → Result HttpError Text
unfolding is_ascii request_line_parts split
parse_request_line line =
    if not (is_ascii line)
    then err (malformed (codes "non-ASCII request line"))
    else request_line_parts (split b' ' line)

unfoldable pub is_tchar : ℕ → Bool
unfolding is_ascii_alphanumeric
is_tchar byte = is_ascii_alphanumeric byte || any (λ c. c == byte) (codes "!#$%&'*+-.^_`|~")

-- Every byte of a character outside ASCII is above 0x7f.
abbrev pub is_control : ℕ → Bool
is_control c = ltb c 0x20 || c == 0x7f

unfoldable pub trim_blanks_start : Text → Text
trim_blanks_start [] = []
trim_blanks_start (c ∷ cs) =
    let rest = trim_blanks_start cs in if c == b' ' || c == b'\t' then rest else c ∷ cs

-- `trim_matches(|c| c == ' ' || c == '\t')`
unfoldable pub trim_blanks : Text → Text
unfolding trim_blanks_start
trim_blanks s = reverse (trim_blanks_start (reverse (trim_blanks_start s)))

-- what `parse_header` makes of the two sides of the colon
unfoldable pub judge_header : Text → Text → Result HttpError Header
unfolding is_tchar trim_blanks
judge_header name value =
    if is_empty name || not (all is_tchar name)
    then err (malformed (codes "invalid header name"))
    else if any is_control (trim_blanks value)
    then err (malformed (codes "control byte in header value"))
    else ok (record { name = name; value = trim_blanks value })

unfoldable pub parse_header : Text → Result HttpError Header
unfolding split_once judge_header
parse_header line = elim (split_once b':' line) [
  | none ↦ err (malformed (codes "header without a colon"))
  | some (name, value) ↦ judge_header name value
]

-- `name.eq_ignore_ascii_case(..)` for a name in lower case
unfoldable pub is_named : Text → Header → Bool
unfolding text_eq to_ascii_lowercase
is_named name header = text_eq (to_ascii_lowercase header.name) name

abbrev pub is_framing : Header → Bool
is_framing header =
    is_named (codes "content-length") header || is_named (codes "transfer-encoding") header

abbrev pub is_authorization : Header → Bool
is_authorization header = is_named (codes "proxy-authorization") header

unfoldable pub reject_ambiguous_framing : List Header → Result HttpError Unit
unfolding is_named
reject_ambiguous_framing headers =
    if any is_framing headers
    then err (malformed (codes "framing header on a CONNECT request"))
    else if ltb 1 (length (keep is_authorization headers))
    then err (malformed (codes "duplicate Proxy-Authorization"))
    else ok tt

-- one turn of the loop over the header lines, with the headers of the lines before it
unfoldable pub push_header : List Header → Text → Result HttpError (List Header)
unfolding starts_with parse_header
push_header headers line =
    if any (λ c. c == b'\r') line || any (λ c. c == b'\n') line
    then err (malformed (codes "bare CR or LF in header block"))
    else if starts_with (codes " ") line || starts_with (b'\t' ∷ []) line
    then err (malformed (codes "obsolete line folding"))
    else if leb max_header_count (length headers)
    then err too_many_headers
    else (parse_header line >>= λ header. ok (headers ++ (header ∷ [])))

unfoldable pub parse_headers : List Header → List Text → Result HttpError (List Header)
unfolding push_header
parse_headers headers [] = ok headers
parse_headers headers (line ∷ lines) = push_header headers line >>= λ more. parse_headers more lines

-- the lines of a head
unfoldable pub parse_lines : Text → List Text → Result HttpError Head
unfolding byte_len parse_request_line parse_headers reject_ambiguous_framing
parse_lines request_line lines =
    if ltb max_request_line (byte_len request_line) then err head_too_large else (do
      target ← parse_request_line request_line
      headers ← parse_headers [] lines
      reject_ambiguous_framing headers
      ok (record { target = target; headers = headers }))

unfoldable pub parse_head : Text → Result HttpError Head
unfolding split_crlf parse_lines
parse_head head = elim (split_crlf head) [
  | [] ↦ parse_lines [] []
  | request_line ∷ lines ↦ parse_lines request_line lines
]

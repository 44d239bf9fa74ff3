-- ===== src/Proxy/Http/Examples.antt =====
-- A client that asks proxy/src/http.rs for a tunnel, in two reads, and one with a wrong password.
use thisconnect.Prelude.{
  ℕ, ◌+◌, ◌≤◌, ◌≡◌, refl, false, Option, none, some, List, [], ◌∷◌, ◌++◌, arith, if◌then◌else◌,
  Result, ok, err, length,
}
use thisconnect.Prelude.Text.{Text, Bytes, codes, text_eq, starts_with, byte_len}
use thisconnect.Net.{v4, show, parse_ip}
use thisconnect.Proxy.Socks5.{Target, domain, DialError, Credentials, required}
use thisconnect.Proxy.Socks5.Handshake.{Peer}
use thisconnect.Proxy.Http.{HttpConfig, max_head_bytes, malformed}
use thisconnect.Proxy.Http.Client.{Client, closed, silent, failed}
use thisconnect.Proxy.Http.Head.{RawHead, read_head, position_of}
use thisconnect.Proxy.Http.Head.Whole.{concat, read_head-whole}
use thisconnect.Proxy.Http.Head.Bounded.{read_head-ends}
use thisconnect.Proxy.Http.Authority.{target_from_authority}
use thisconnect.Proxy.Http.Authority.Admissible.{IsAdmissible}
use thisconnect.Proxy.Http.Authority.Spelled.{target_from_authority-show}
use thisconnect.Proxy.Http.Handshake.{
  Established, find_header, accepts, negotiate_inner, response, established_line, handshake,
}
use thisconnect.Proxy.Http.Handshake.Answered.{answered, bad_request, handshake-answers}
use thisconnect.Proxy.Http.Handshake.Refused.{wrong, challenge_answer, handshake-alike}
use thisconnect.Proxy.Http.Request.{Header, Head, is_named, is_authorization, parse_head}
use thisconnect.Prelude.Utf8.{from_utf8}

abbrev crlf : Bytes
crlf = b'\r' ∷ b'\n' ∷ []

-- Base64, as far as the examples need it.
abbrev decode : Text → Option Bytes
decode token = if text_eq token (codes "dTpwdw==") then some (codes "u:pw") else none

abbrev visitor : Peer
visitor = record { address = v4 (192 ∷ 168 ∷ 1 ∷ 9 ∷ []); asked_at = 5; told_at = 6 }

abbrev secret : Credentials
secret = record { username = codes "u"; password = codes "pw" }

abbrev guarded_proxy : HttpConfig
guarded_proxy = record { auth = required secret; tunnel_has_v6 = false }

abbrev dialer : Target → Option (Result DialError ℕ)
dialer t = some (ok 3)

abbrev request_line : Text
request_line = codes "CONNECT a.b:80 HTTP/1.1"

abbrev login_line : Text
login_line = codes "Proxy-Authorization: Basic dTpwdw=="

abbrev asking : List Bytes → Client
asking reads = record { reads = reads; at_end = silent; writes_left = 9; output = []; buckets = [] }

-- The empty line is cut between the reads, and a byte is sent behind it.
abbrev before : Client
before = asking (
    (request_line ++ (crlf ++ (login_line ++ (b'\r' ∷ []))))
    ∷ (b'\n' ∷ b'\r' ∷ b'\n' ∷ 7 ∷ [])
    ∷ (8 ∷ [])
    ∷ [])

abbrev opened : Established ℕ
opened = record { target = domain (codes "a.b") 80; upstream = 3; pending = 7 ∷ [] }

abbrev after : Client
after = record before { reads = (8 ∷ []) ∷ []; writes_left = 8; output = established_line }

abbrev short : Client
short = asking ((codes "GET" ++ (b'\r' ∷ b'\n' ∷ [])) ∷ (b'\r' ∷ b'\n' ∷ 9 ∷ []) ∷ (5 ∷ []) ∷ [])

short_ends : position_of (concat short.reads) ≡ some 3
unfolding position_of
short_ends = refl

read_head-whole_example :
    (raw : RawHead) × (rest : List Bytes) × (read_head short
      ≡ (ok raw, record short { reads = rest }))
    × (raw.head ≡ codes "GET")
    × (raw.pending ++ concat rest ≡ 9 ∷ 5 ∷ [])
read_head-whole_example =
    read_head-whole short 3 (refl, (refl, (refl, tt))) short_ends (omega arith)

read_head-ends_example : 3 ≤ length ((read_head short).1).reads + max_head_bytes
read_head-ends_example = read_head-ends short

short_name : IsAdmissible guarded_proxy (domain (codes "a.b") 443)
unfolding byte_len
short_name = (omega arith, omega arith, refl, omega arith, refl, refl)

a_name : parse_ip (codes "a.b") ≡ none
unfolding parse_ip
a_name = refl

unbracketed_name : starts_with (codes "[") (codes "a.b") ≡ false
unfolding starts_with
unbracketed_name = refl

target_from_authority-show_example :
    target_from_authority (codes "a.b" ++ (b':' ∷ show 443)) guarded_proxy
    ≡ ok (domain (codes "a.b") 443)
target_from_authority-show_example =
    target_from_authority-show guarded_proxy (codes "a.b") 443 short_name a_name unbracketed_name

-- a password that is wrong
abbrev guessing : Client
guessing =
    asking
      ((request_line ++ (crlf ++ (codes "Proxy-Authorization: Basic AAAA" ++ (crlf ++ crlf)))) ∷ [])

abbrev guessed_head : RawHead
guessed_head = record {
  head = request_line ++ (crlf ++ codes "Proxy-Authorization: Basic AAAA");
  pending = [];
}

abbrev guess : Header
guess = record { name = codes "Proxy-Authorization"; value = codes "Basic AAAA" }

abbrev guess_asked : Head
guess_asked = record { target = codes "a.b:80"; headers = guess ∷ [] }

guess_is_read : read_head guessing ≡ (ok guessed_head, record guessing { reads = [] })
unfolding read_head
guess_is_read = refl

guess_is_text : from_utf8 guessed_head.head ≡ some guessed_head.head
unfolding from_utf8
guess_is_text = refl

guess_parses : parse_head guessed_head.head ≡ ok guess_asked
unfolding parse_head
guess_parses = refl

guess_is_found : find_header is_authorization guess_asked.headers ≡ some guess
unfolding find_header is_named
guess_is_found = refl

guess_is_wrong : accepts decode secret guess.value ≡ false
unfolding accepts
guess_is_wrong = refl

handshake-alike_example :
    (handshake decode visitor guarded_proxy dialer guessing).1.output ≡ [] ++ challenge_answer
handshake-alike_example =
    handshake-alike decode visitor guarded_proxy secret dialer guessing
      (record guessing { reads = [] }) guessed_head guessed_head.head guess_asked refl guess_is_read
      guess_is_text guess_parses (wrong guess guess_is_found guess_is_wrong) (omega arith)

-- a client that closes its side too early
abbrev leaving : Client
leaving = record (asking (codes "CONNECT" ∷ [])) { at_end = closed }

abbrev left : Client
left = record leaving { reads = [] }

leaving_fails :
    negotiate_inner decode visitor guarded_proxy leaving
    ≡ (err (failed (malformed (codes "closed before end of request head"))), left)
unfolding negotiate_inner
leaving_fails = refl

handshake-answers_example :
    (reason : Text) × (handshake decode visitor guarded_proxy dialer leaving ≡ (
      err (failed (malformed (codes "closed before end of request head"))),
      answered left (response (400, reason) false),
    ))
    × (left.output ≡ leaving.output)
handshake-answers_example =
    handshake-answers decode visitor guarded_proxy dialer leaving left
      (failed (malformed (codes "closed before end of request head"))) 400 false leaving_fails
      (bad_request (codes "closed before end of request head")) (omega arith)

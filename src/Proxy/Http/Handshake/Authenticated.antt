-- ===== src/Proxy/Http/Handshake/Authenticated.antt =====
-- Who gets through the handshake of proxy/src/http.rs where a password is required.
use thisconnect.Prelude.{◌≡◌, Option, some, ok}
use thisconnect.Prelude.Text.{Text, Bytes}
use thisconnect.Prelude.Utf8.{from_utf8}
use thisconnect.Proxy.Socks5.{Credentials}
use thisconnect.Proxy.Socks5.Handshake.{Peer}
use thisconnect.Proxy.Http.{HttpConfig}
use thisconnect.Proxy.Http.Client.{Client}
use thisconnect.Proxy.Http.Head.{RawHead, read_head}
use thisconnect.Proxy.Http.Request.{Head, parse_head}
use thisconnect.Proxy.Http.Request.Spelled.{HasLines}
use thisconnect.Proxy.Http.Request.Framed.{IsConnect, IsFramed}
use thisconnect.Proxy.Http.Authority.Admissible.{Names}
use thisconnect.Proxy.Http.Handshake.{Negotiated}
use thisconnect.Proxy.Http.Handshake.Login.{IsLogin}

-- The request of a client that gets through.
pub record IsRequest (decode : Text → Option Bytes) (peer : Peer) (config : HttpConfig)
    (c : Credentials) (w : Client) (n : Negotiated) : Type 0 where
  pub raw : RawHead
  pub rest : Client
  pub text : Text
  pub head : Head
  pub read : read_head w ≡ (ok raw, rest)
  pub decoded : from_utf8 raw.head ≡ some text
  pub parsed : parse_head text ≡ ok head
  pub connects : IsConnect text head
  pub headed : HasLines text head
  pub framed : IsFramed head
  pub login : IsLogin decode peer c w head.headers
  pub names : Names head.target n.target
  pub kept : n.pending ≡ raw.pending

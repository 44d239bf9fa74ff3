-- ===== src/Ovpn/Types.antt =====
-- The typed values of shared/src/ovpn/profile.rs, and how a directive is written.
use thisconnect.Prelude.{
  ℕ, Bool, true, false, ◌||◌, Option, none, some, List, [], ◌∷◌, ◌++◌, ◌==◌, if◌then◌else◌,
  is_empty, any,
}
use thisconnect.Prelude.Text.{Text, codes}
use thisconnect.Net.{IpAddr, show, show_ip}

pub record EmittedDirective : Type 0 where
  pub name : Text
  pub args : List Text

unfoldable pub bare : Text → EmittedDirective
bare name = record { name = name; args = [] }

abbrev pub has_space : Text → Bool
has_space arg = any (λ c. c == b' ') arg

-- one turn of the loop in `EmittedDirective::fmt`
unfoldable pub show_arg : Text → Text
show_arg arg =
    if is_empty arg || has_space arg then b' ' ∷ b'"' ∷ (arg ++ b'"' ∷ []) else b' ' ∷ arg

unfoldable pub show_args : List Text → Text
unfolding show_arg
show_args [] = []
show_args (a ∷ rest) = show_arg a ++ show_args rest

unfoldable pub show_directive : EmittedDirective → Text
unfolding show_args
show_directive d = d.name ++ show_args d.args

pub data TransportProto : Type 0 where
  udp udp4 udp6 tcp tcp4 tcp6 : TransportProto

unfoldable pub is_tcp : TransportProto → Bool
is_tcp tcp = true
is_tcp tcp4 = true
is_tcp tcp6 = true
is_tcp _ = false

unfoldable pub show_proto : TransportProto → Text
show_proto udp = codes "udp"
show_proto udp4 = codes "udp4"
show_proto udp6 = codes "udp6"
show_proto tcp = codes "tcp"
show_proto tcp4 = codes "tcp4"
show_proto tcp6 = codes "tcp6"

pub data RemoteHost : Type 0 where
  name : Text → RemoteHost
  ip : IpAddr → RemoteHost

unfoldable pub show_host : RemoteHost → Text
unfolding show_ip
show_host (name n) = n
show_host (ip a) = show_ip a

pub record Remote : Type 0 where
  pub host : RemoteHost
  pub port : ℕ
  pub proto : Option TransportProto

abbrev pub proto_arg : Option TransportProto → List Text
proto_arg none = []
proto_arg (some p) = show_proto p ∷ []

-- `Remote::to_directive`
unfoldable pub remote_directive : Remote → EmittedDirective
unfolding show_host show_proto show
remote_directive r = record {
  name = codes "remote";
  args = show_host r.host ∷ show r.port ∷ proto_arg r.proto;
}

pub record RouteDirective : Type 0 where
  pub network : Text
  pub netmask : Option Text
  pub gateway : Option Text
  pub metric : Option ℕ

pub record RedirectGateway : Type 0 where
  pub flags : List Text

pub record DhcpOption : Type 0 where
  pub kind : Text
  pub values : List Text

pub record StaticChallenge : Type 0 where
  pub prompt : Text
  pub echo : Bool
  pub format_flags : Option ℕ

abbrev pub flags_arg : Option ℕ → List Text
flags_arg none = []
flags_arg (some n) = show n ∷ []

-- `StaticChallenge::to_directive`
unfoldable pub challenge_directive : StaticChallenge → EmittedDirective
unfolding show
challenge_directive c = record {
  name = codes "static-challenge";
  args = c.prompt ∷ (if c.echo then codes "1" else codes "0") ∷ flags_arg c.format_flags;
}

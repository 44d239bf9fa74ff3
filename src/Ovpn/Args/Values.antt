-- ===== src/Ovpn/Args/Values.antt =====
-- The argument lists of shared/src/ovpn/args.rs that become typed values.
use thisconnect.Prelude.{
  ℕ, ◌-◌, Bool, false, not, ◌&&◌, ◌||◌, Option, none, some, List, [], ◌∷◌, ◌++◌, leb, ◌==◌,
  if◌then◌else◌, ok, err, length, drop, get_elem?, is_empty, all, ◌>>=◌, ◌>>◌,
}
use thisconnect.Prelude.Text.{
  Text, codes, text_eq, one_of, strip_prefix, within, is_ascii_digit, byte_len,
}
use thisconnect.Prelude.Split.{split}
use thisconnect.Net.{show}
use thisconnect.Ovpn.Types.{
  TransportProto, udp, udp4, udp6, tcp, tcp4, tcp6, show_host, Remote, RouteDirective, DhcpOption,
  StaticChallenge,
}
use thisconnect.Ovpn.Args.Checks.{
  Ctx, Checked, invalid, arg_at, expect_arity, parse_u32_in, parse_port, expect_one_of, parse_host,
}

unfoldable pub parse_transport : Ctx → Text → Checked TransportProto
unfolding one_of
parse_transport ctx arg =
    if text_eq arg (codes "udp")
    then ok udp
    else if text_eq arg (codes "udp4")
    then ok udp4
    else if text_eq arg (codes "udp6")
    then ok udp6
    else if one_of arg (codes "tcp" ∷ codes "tcp-client" ∷ [])
    then ok tcp
    else if one_of arg (codes "tcp4" ∷ codes "tcp4-client" ∷ [])
    then ok tcp4
    else if one_of arg (codes "tcp6" ∷ codes "tcp6-client" ∷ [])
    then ok tcp6
    else err (invalid ctx)

-- An optional argument, parsed where it is there.
abbrev pub optional : {A : Type 0} → (Text → Checked A) → Option Text → Checked (Option A)
optional parse none = ok none
optional parse (some t) = elim (parse t) [ ok a ↦ ok (some a) | err e ↦ err e ]

abbrev pub default_port : ℕ
default_port = 1194

abbrev pub port_or_default : Ctx → Option Text → Checked ℕ
port_or_default ctx none = ok default_port
port_or_default ctx (some p) = parse_port ctx p

unfoldable pub parse_remote : Ctx → List Text → Checked Remote
unfolding expect_arity parse_host parse_port parse_transport arg_at
parse_remote ctx args = do
  expect_arity ctx args 1 3
  host ← parse_host ctx (arg_at args 0)
  port ← port_or_default ctx (get_elem? args 1)
  proto ← optional (parse_transport ctx) (get_elem? args 2)
  ok (record { host = host; port = port; proto = proto })

abbrev pub protos : List Text
protos =
    codes "udp"
    ∷ codes "udp4"
    ∷ codes "udp6"
    ∷ codes "tcp"
    ∷ codes "tcp4"
    ∷ codes "tcp6"
    ∷ codes "tcp-client"
    ∷ codes "tcp4-client"
    ∷ codes "tcp6-client"
    ∷ []

unfoldable pub parse_proto : Ctx → List Text → Checked Text
unfolding expect_arity expect_one_of arg_at
parse_proto ctx args = do
  expect_arity ctx args 1 1
  expect_one_of ctx (arg_at args 0) protos
  ok (arg_at args 0)

unfoldable pub is_all_digits : Text → Bool
is_all_digits s = not (is_empty s) && all is_ascii_digit s

abbrev digits_behind : Text → Text → Bool
digits_behind p dev = elim (strip_prefix p dev) [ none ↦ false | some rest ↦ is_all_digits rest ]

unfoldable pub parse_dev : Ctx → List Text → Checked Text
unfolding expect_arity is_all_digits strip_prefix text_eq arg_at
parse_dev ctx args = do
  expect_arity ctx args 1 1
  let dev : Text = arg_at args 0
  let is_tun = text_eq dev (codes "tun") || digits_behind (codes "tun") dev
  let is_utun = text_eq dev (codes "utun") || digits_behind (codes "utun") dev
  if is_tun || is_utun then ok dev else err (invalid ctx)

abbrev pub is_ascii_hexdigit : ℕ → Bool
is_ascii_hexdigit c = is_ascii_digit c || within b'a' b'f' c || within b'A' b'F' c

abbrev pub ascii_upper : ℕ → ℕ
ascii_upper c = if within b'a' b'z' c then c - 32 else c

unfoldable pub to_ascii_uppercase : Text → Text
to_ascii_uppercase [] = []
to_ascii_uppercase (c ∷ cs) = ascii_upper c ∷ to_ascii_uppercase cs

abbrev is_hex_byte : Text → Bool
is_hex_byte b = byte_len b == 2 && all is_ascii_hexdigit b

unfoldable pub parse_peer_fingerprint : Ctx → List Text → Checked Text
unfolding expect_arity split to_ascii_uppercase arg_at
parse_peer_fingerprint ctx args = do
  expect_arity ctx args 1 1
  let bytes = split b':' (arg_at args 0)
  if leb 2 (length bytes) && all is_hex_byte bytes
      then ok (to_ascii_uppercase (arg_at args 0))
      else err (invalid ctx)

unfoldable pub parse_static_challenge : Ctx → List Text → Checked StaticChallenge
unfolding expect_arity parse_u32_in arg_at
parse_static_challenge ctx args = do
  expect_arity ctx args 2 3
  echo ← parse_u32_in ctx (arg_at args 1) 0 1
  format_flags ← optional (λ f. parse_u32_in ctx f 0 255) (get_elem? args 2)
  ok (record { prompt = arg_at args 0; echo = echo == 1; format_flags = format_flags })

unfoldable pub parse_route : Ctx → List Text → Checked RouteDirective
unfolding expect_arity parse_u32_in arg_at
parse_route ctx args = do
  expect_arity ctx args 1 4
  metric ← optional (λ m. parse_u32_in ctx m 0 65535) (get_elem? args 3)
  ok (record {
    network = arg_at args 0;
    netmask = get_elem? args 1;
    gateway = get_elem? args 2;
    metric = metric;
  })

unfoldable pub parse_dhcp_option : Ctx → List Text → Checked DhcpOption
unfolding expect_arity to_ascii_uppercase arg_at
parse_dhcp_option ctx args = do
  expect_arity ctx args 1 8
  ok (record { kind = to_ascii_uppercase (arg_at args 0); values = drop 1 args })

-- A choice argument that is kept as it is, where it is there.
abbrev pub chosen : Ctx → List Text → Option Text → Checked (List Text)
chosen ctx allowed none = ok []
chosen ctx allowed (some t) = expect_one_of ctx t allowed >> ok (t ∷ [])

abbrev pub proxy_methods : List Text
proxy_methods = codes "auto" ∷ codes "auto-nct" ∷ []

abbrev pub proxy_auths : List Text
proxy_auths = codes "basic" ∷ codes "digest" ∷ codes "ntlm2" ∷ codes "none" ∷ []

unfoldable pub parse_proxy : Ctx → List Text → Checked (List Text)
unfolding expect_arity parse_host parse_port expect_one_of show_host show arg_at
parse_proxy ctx args = do
  expect_arity ctx args 2 4
  host ← parse_host ctx (arg_at args 0)
  port ← parse_port ctx (arg_at args 1)
  third ← chosen ctx proxy_methods (get_elem? args 2)
  fourth ← chosen ctx proxy_auths (get_elem? args 3)
  ok (show_host host ∷ show port ∷ (third ++ fourth))

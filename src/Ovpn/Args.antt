-- ===== src/Ovpn/Args.antt =====
-- shared/src/ovpn/args.rs: typed validation of arguments.
mod Checks
mod Values
pub use Checks.{
  Ctx, Checked, invalid, unsafe_arg, allowed_punctuation, is_allowed_char, is_label_char,
}
unfoldable pub use Checks.{
  arg_at, check_charset, expect_no_args, expect_arity, parse_u32_in, parse_port, expect_one_of,
  is_label, is_rfc1123_hostname, parse_host,
}
pub use Values.{
  protos, default_port, ascii_upper, optional, chosen, port_or_default, proxy_methods, proxy_auths,
}
unfoldable pub use Values.{
  parse_transport, parse_remote, parse_proto, is_all_digits, parse_dev, to_ascii_uppercase,
  parse_peer_fingerprint, parse_static_challenge, parse_route, parse_dhcp_option, parse_proxy,
}

-- ===== src/Session/Dns/Examples.antt =====
-- The reply of a server with two name servers, of which the tunnel cannot reach one.
use thisconnect.Prelude.{◌≡◌, refl, false, some, [], ◌∷◌}
use thisconnect.Prelude.Text.{Text, codes}
use thisconnect.Net.{IpAddr, v4}
use thisconnect.Session.Dns.{PushReply, TunnelDns, captured, capture}
use thisconnect.Session.Dns.Options.{from_log_text}
use thisconnect.Session.Dns.Usable.{IsTrusted, capture-IsTrusted}

abbrev log_line : Text
log_line =
    codes
      "PUSH: Received control message: 'PUSH_REPLY,route 10.8.0.1,dhcp-option DNS 10.8.0.1,dhcp-option DNS6 fd00::1,dhcp-option DOMAIN Corp.Example.,dhcp-option DOMAIN bad^name,dns server 0 address 10.8.0.1 10.8.0.2:53,ifconfig 10.8.0.6 255.255.255.0'"

abbrev reply : PushReply
reply = record {
  nameservers =
      v4 (10 ∷ 8 ∷ 0 ∷ 1 ∷ [])
      ∷ IpAddr.v6 (0xfd ∷ 0 ∷ 0 ∷ 0 ∷ 0 ∷ 0 ∷ 0 ∷ 0 ∷ 0 ∷ 0 ∷ 0 ∷ 0 ∷ 0 ∷ 0 ∷ 0 ∷ 1 ∷ [])
      ∷ v4 (10 ∷ 8 ∷ 0 ∷ 2 ∷ [])
      ∷ [];
  search_domains = codes "corp.example" ∷ [];
  ifconfig =
      some (record { local = 10 ∷ 8 ∷ 0 ∷ 6 ∷ []; peer_or_netmask = 255 ∷ 255 ∷ 255 ∷ 0 ∷ [] });
  has_ipv6 = false;
  dropped_addresses = 0;
  dropped_domains = 1;
}

abbrev usable : TunnelDns
usable = record {
  nameservers = v4 (10 ∷ 8 ∷ 0 ∷ 1 ∷ []) ∷ v4 (10 ∷ 8 ∷ 0 ∷ 2 ∷ []) ∷ [];
  search_domains = codes "corp.example" ∷ [];
  tunnel_has_v6 = false;
}

reads : from_log_text log_line ≡ some reply
unfolding from_log_text
reads = refl

captures : capture reply ≡ captured usable
unfolding capture
captures = refl

capture-IsTrusted_example : IsTrusted reply usable
capture-IsTrusted_example = capture-IsTrusted log_line reply usable reads captures

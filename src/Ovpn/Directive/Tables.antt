-- ===== src/Ovpn/Directive/Tables.antt =====
-- The tables of shared/src/ovpn/directive.rs.
use thisconnect.Prelude.{ℕ, List, [], ◌∷◌}
use thisconnect.Prelude.Text.{Text, codes}

abbrev pub inline_material : List Text
inline_material =
    codes "ca"
    ∷ codes "cert"
    ∷ codes "key"
    ∷ codes "dh"
    ∷ codes "tls-auth"
    ∷ codes "tls-crypt"
    ∷ codes "tls-crypt-v2"
    ∷ codes "pkcs12"
    ∷ codes "crl-verify"
    ∷ codes "extra-certs"
    ∷ []

abbrev pub code : Text
code = codes "loads code into the privileged process"

abbrev pub script : Text
script = codes "runs a script"

abbrev pub writes : Text
writes = codes "writes to a path of the profile's choosing"

abbrev pub reads : Text
reads = codes "reads a path of the profile's choosing"

abbrev pub hard_reject : List (Text × Text)
hard_reject =
    (codes "plugin", code)
    ∷ (codes "pkcs11-providers", code)
    ∷ (codes "pkcs11-id", code)
    ∷ (codes "pkcs11-id-management", code)
    ∷ (codes "pkcs11-cert-private", code)
    ∷ (codes "pkcs11-private-mode", code)
    ∷ (codes "pkcs11-protected-authentication", code)
    ∷ (codes "pkcs11-pin-cache", code)
    ∷ (codes "cryptoapicert", code)
    ∷ (codes "engine", code)
    ∷ (codes "providers", code)
    ∷ (codes "up", script)
    ∷ (codes "down", script)
    ∷ (codes "route-up", script)
    ∷ (codes "route-pre-down", script)
    ∷ (codes "ipchange", script)
    ∷ (codes "tls-verify", script)
    ∷ (codes "auth-user-pass-verify", script)
    ∷ (codes "client-connect", script)
    ∷ (codes "client-disconnect", script)
    ∷ (codes "learn-address", script)
    ∷ (codes "tls-export-cert", script)
    ∷ (codes "client-crresponse", script)
    ∷ (codes "tls-crypt-v2-verify", script)
    ∷ (codes "auth-gen-token-secret", script)
    ∷ (codes "log", writes)
    ∷ (codes "log-append", writes)
    ∷ (codes "status", writes)
    ∷ (codes "status-version", writes)
    ∷ (codes "writepid", writes)
    ∷ (codes "tmp-dir", writes)
    ∷ (codes "cd", codes "changes the privileged process working directory")
    ∷ (codes "chroot", codes "changes the privileged process root")
    ∷ (codes "client-config-dir", reads)
    ∷ (codes "ccd-exclusive", reads)
    ∷ (codes "iproute", codes "substitutes the command the daemon executes")
    ∷ (codes "setcon", codes "changes the security context")
    ∷ (codes "askpass", reads)
    ∷ (codes "capath", reads)
    ∷ (codes "setenv-safe", codes "injects environment into the privileged process")
    ∷ (codes "config", codes "nested includes are flattened, not followed")
    ∷ (codes "http-proxy-user-pass", codes "reads credentials from a path")
    ∷ (codes "auth-token-secret-file", reads)
    ∷ []

abbrev pub connection_scoped : List Text
connection_scoped =
    codes "remote"
    ∷ codes "proto"
    ∷ codes "port"
    ∷ codes "lport"
    ∷ codes "rport"
    ∷ codes "nobind"
    ∷ codes "float"
    ∷ codes "connect-retry"
    ∷ codes "connect-retry-max"
    ∷ codes "connect-timeout"
    ∷ codes "explicit-exit-notify"
    ∷ codes "http-proxy"
    ∷ codes "socks-proxy"
    ∷ codes "tun-mtu"
    ∷ codes "tun-mtu-extra"
    ∷ codes "fragment"
    ∷ codes "mssfix"
    ∷ []

abbrev pub zero_or_one : List Text
zero_or_one = codes "0" ∷ codes "1" ∷ []

abbrev pub inert_setenv : List (Text × List Text)
inert_setenv =
    (codes "CLIENT_CERT", zero_or_one)
    ∷ (codes "GENERIC_CONFIG", zero_or_one)
    ∷ (codes "USERNAME_AS_COMMON_NAME", zero_or_one)
    ∷ (codes "FORWARD_COMPATIBLE", zero_or_one)
    ∷ (codes "ALLOW_PASSWORD_SAVE", zero_or_one)
    ∷ (codes "AUTOLOGIN", zero_or_one)
    ∷ []

abbrev pub flags : List Text
flags =
    codes "client"
    ∷ codes "pull"
    ∷ codes "tls-client"
    ∷ codes "nobind"
    ∷ codes "float"
    ∷ codes "remote-random"
    ∷ codes "persist-key"
    ∷ codes "persist-tun"
    ∷ codes "auth-nocache"
    ∷ codes "mute-replay-warnings"
    ∷ []

abbrev pub max_seconds : ℕ
max_seconds = 86400

abbrev pub ranges : List (Text × ℕ × ℕ)
ranges =
    (codes "port", 1, 65535)
    ∷ (codes "lport", 0, 65535)
    ∷ (codes "rport", 1, 65535)
    ∷ (codes "reneg-sec", 0, max_seconds)
    ∷ (codes "ping", 1, max_seconds)
    ∷ (codes "ping-restart", 1, max_seconds)
    ∷ (codes "tun-mtu", 68, 65536)
    ∷ (codes "tun-mtu-extra", 0, 65536)
    ∷ (codes "fragment", 0, 65536)
    ∷ (codes "mssfix", 0, 9000)
    ∷ (codes "sndbuf", 0, 16777216)
    ∷ (codes "rcvbuf", 0, 16777216)
    ∷ (codes "mute", 0, 1000)
    ∷ (codes "connect-timeout", 1, 600)
    ∷ (codes "connect-retry-max", 0, 1000)
    ∷ []

abbrev pub choices : List (Text × List Text)
choices =
    (codes "dev-type", codes "tun" ∷ [])
    ∷ (codes "topology", codes "subnet" ∷ codes "net30" ∷ codes "p2p" ∷ [])
    ∷ (codes "remote-cert-tls", codes "server" ∷ [])
    ∷ (codes "ns-cert-type", codes "server" ∷ [])
    ∷ (codes "key-direction", codes "0" ∷ codes "1" ∷ [])
    ∷ (codes "route-method", codes "exe" ∷ codes "ipapi" ∷ codes "adaptive" ∷ [])
    ∷ (codes "tls-version-min", codes "1.0" ∷ codes "1.1" ∷ codes "1.2" ∷ codes "1.3" ∷ [])
    ∷ (codes "tls-version-max", codes "1.0" ∷ codes "1.1" ∷ codes "1.2" ∷ codes "1.3" ∷ [])
    ∷ []

abbrev pub token_lists : List Text
token_lists =
    codes "cipher"
    ∷ codes "data-ciphers"
    ∷ codes "data-ciphers-fallback"
    ∷ codes "auth"
    ∷ codes "tls-cipher"
    ∷ codes "tls-ciphersuites"
    ∷ codes "remote-cert-eku"
    ∷ codes "remote-cert-ku"
    ∷ []

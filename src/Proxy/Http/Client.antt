-- ===== src/Proxy/Http/Client.antt =====
-- The connection that proxy/src/http.rs serves: what each further `read` yields, the bytes that
-- were written to the client, and how often a write will still succeed. Beside them stands the
-- throttle, which all connections share.
use thisconnect.Prelude.{ℕ, ◌-◌, List, ◌++◌, ◌==◌, if◌then◌else◌, ok, err}
use thisconnect.Prelude.Text.{Bytes}
use thisconnect.Prelude.Exec.{Exec}
use thisconnect.Proxy.Http.{HttpError, broken_io}
use thisconnect.Proxy.Socks5.Limiter.{Buckets}

-- What follows the last bytes of a client: it closes its side, stays silent until the timeout, or
-- the connection breaks.
pub data AtEnd : Type 0 where
  closed silent broken : AtEnd

pub record Client : Type 0 where
  pub reads : List Bytes
  pub at_end : AtEnd
  pub writes_left : ℕ
  pub output : Bytes
  pub buckets : Buckets

-- A negotiation ends early by an error, or because the timeout around it has elapsed.
pub data Stop : Type 0 where
  failed : HttpError → Stop
  elapsed : Stop

abbrev pub Talk : Type 0 → Type 0
Talk A = Exec Client Stop A

-- `client.write_all(..)` and `client.flush()`
unfoldable pub write : Bytes → Talk Unit
write bytes w =
    if w.writes_left == 0
    then (err (failed broken_io), w)
    else (ok tt, record w { writes_left = w.writes_left - 1; output = w.output ++ bytes })

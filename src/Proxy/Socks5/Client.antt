-- ===== src/Proxy/Socks5/Client.antt =====
-- The connection that proxy/src/socks5.rs serves: the bytes that are still to be read from the
-- client, those that were written to it, and how often a write will still succeed. Beside them
-- stands the throttle, which all connections share.
pub mod Reading
use thisconnect.Prelude.{
  ℕ, ◌+◌, ◌-◌, [], ◌++◌, leb, ◌==◌, if◌then◌else◌, ok, err, length, take, drop,
}
use thisconnect.Prelude.Text.{Bytes}
use thisconnect.Prelude.Exec.{Exec}
use thisconnect.Proxy.Socks5.{Socks5Error, io, unexpected_eof, broken_pipe, handshake_timeout}
use thisconnect.Proxy.Socks5.Limiter.{Buckets}

-- Behind its last byte a client has closed its side, or it stays silent until the timeout.
pub data AtEnd : Type 0 where
  closed silent : AtEnd

pub record Client : Type 0 where
  pub input : Bytes
  pub at_end : AtEnd
  pub writes_left : ℕ
  pub output : Bytes
  pub buckets : Buckets

abbrev pub Talk : Type 0 → Type 0
Talk A = Exec Client Socks5Error A

abbrev pub at_end_error : AtEnd → Socks5Error
at_end_error closed = io unexpected_eof
at_end_error silent = handshake_timeout

-- `client.read_exact(&mut buf)` for a buffer of `n` bytes
unfoldable pub read_exact : ℕ → Talk Bytes
read_exact n w =
    if leb n (length w.input)
    then (ok (take n w.input), record w { input = drop n w.input })
    else (err (at_end_error w.at_end), record w { input = [] })

-- `client.write_all(..)` and `client.flush()`
unfoldable pub write : Bytes → Talk Unit
write bytes w =
    if w.writes_left == 0
    then (err (io broken_pipe), w)
    else (ok tt, record w { writes_left = w.writes_left - 1; output = w.output ++ bytes })

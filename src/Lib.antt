-- ===== src/Lib.antt =====
-- thisconnect: a VPN client whose root daemon drives an unmodified openvpn and whose applications
-- reach the tunnel through a local proxy. This library models the parts that decide what is let
-- through, and the state machines that the daemon runs.
--
-- A profile is imported from a text file (`shared/src/ovpn`) and rebuilt as the configuration that
-- openvpn is started with. The daemon runs one session at a time (`daemon/src/session/mod.rs`): it
-- talks to openvpn over its management socket (`daemon/src/mgmt`), follows the tunnel's state there,
-- moves the session's own state cell (`daemon/src/session/state.rs`), takes the resolvers from what
-- the server pushes (`daemon/src/session/dns.rs`) and installs routes and rules by plans of commands
-- (`daemon/src/policy`). The proxy (`proxy/src/listener.rs`) admits the peers that may use it and
-- serves SOCKS5 (`proxy/src/socks5.rs`) and HTTP CONNECT (`proxy/src/http.rs`) to them.
--
--   Prelude    shared tests, lists over the native numbers, texts and their UTF-8, bits, splitting,
--              results and a monad of fallible code that acts on a world
--   Net        the decimal numbers and IP addresses of the standard library, read and written
--   Ovpn       `shared/src/ovpn`: Lexer (`lexer.rs`), Args (`args.rs`), Directive
--              (`directive.rs`: tables, handlers, `classify`), Types and Profile (`profile.rs` and
--              `parse_profile` of `mod.rs`), Error (`error.rs`). Emission proves that what the
--              handlers write is read back; Profile.Import, Written and Canonical follow
--              `parse_profile` over the whole file, and Profile.Lined what is written of it.
--   Mgmt       `daemon/src/mgmt`: Escape, Codec, Event, Challenge and Tunnel, each the file of that
--              name
--   Session    `daemon/src/session`: State (`state.rs`: the cell, its transitions, and what clients
--              see), Orchestrator (`mod.rs` and `connect.rs`: the calls of the manager, its
--              supervisor and the attempt to connect; Turn has their steps) and Dns (`dns.rs`:
--              Accumulator and Options read a PUSH_REPLY)
--   Policy     `daemon/src/policy`: Command (`command.rs`) and Plan (`plan.rs`: order, install with
--              rollback, teardown, reassertion)
--   Proxy      `proxy/src`: Socks5 (`socks5.rs`: Client is the connection, Handshake the protocol,
--              Limiter the throttle of failed logins), Http (`http.rs`: Client, Head, Request,
--              Authority and Handshake), Cidr (`listener/cidr.rs`), Listener (`listener.rs` and
--              `listener/session.rs`) and Stats (`stats.rs`)
--
-- How the code is read. A text is the list of its code points and a byte string the list of its
-- bytes; `byte_len` counts UTF-8. A method that changes `self` returns the new value. The text of an
-- error message is kept only where the code compares or stores it. Unsigned integers are native
-- numbers with the width's limit written out where the code parses, adds, saturates or wraps around:
-- the counters of the proxy are 64-bit words.
--
-- What the program calls and does not contain is a parameter: the command runner of a plan, the
-- watch channel and the event queue of the state cell, base64, lossy decoding of bytes, the dialer of
-- the proxy, what binding an address comes to, and the relay of a session. The world of a plan is
-- arbitrary, so every theorem on plans holds whatever the commands do.
--
-- In the SOCKS5 server a read takes bytes off the client's input; at the end of the input the client
-- has either closed its side or stays silent until the handshake's timeout. In the HTTP server the
-- client is the list of what each read yields, and at its end the client is closed, silent or broken;
-- a timeout is the outcome `elapsed` of the code that it cuts off. A write succeeds a given number of
-- times. The readings of the clock in one login are given with the peer. Tokens of the throttle are
-- counted in nanoseconds of refill (one token is 12 * 10^9), so the source's floating-point numbers
-- are exact here and rounding is not modelled; the map is an association list and `max_by` takes the
-- last of equal entries in its order.
--
-- The calls of the session manager interleave: a call in progress is a task, a step runs one task to
-- its next await, and any task may step at any time. What an await yields is given with the step. The
-- processes, routes and sockets of an attempt are one number, which is up from the step that starts
-- openvpn to the step that tears it down; what happens inside of starting, authenticating and tearing
-- down is not split further.
--
-- Loops are structural, with two exceptions: the digits of a number recur with the number itself as
-- fuel, and the eviction loop of the throttle with the number of entries, of which each turn removes
-- one.
--
-- Not modelled: sockets, processes, files and signals, the IPC server and its client, peer
-- authentication by the operating system, the user interface, the client of the management socket,
-- prompts and one-time passwords, the resolver, the choice of egress addresses, the watchdog, and the
-- plans that the Linux and macOS backends build.
mod Prelude
mod Net
pub mod Policy
pub mod Session
pub mod Mgmt
pub mod Ovpn
pub mod Proxy

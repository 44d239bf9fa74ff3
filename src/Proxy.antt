-- ===== src/Proxy.antt =====
-- The proxy crate: its SOCKS5 and HTTP servers, the listener in front of them and its counters.
pub mod Socks5
pub mod Http
pub mod Cidr
pub mod Listener
pub mod Stats

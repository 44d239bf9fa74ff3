-- ===== src/Mgmt.antt =====
-- daemon/src/mgmt: the management channel to openvpn.
pub mod Escape
pub mod Challenge
pub mod Event
pub mod Codec
pub mod Tunnel

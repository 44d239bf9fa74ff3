-- ===== src/Ovpn.antt =====
-- shared/src/ovpn: import of a profile by an allowlist, and the configuration that it rebuilds.
pub mod Error
pub mod Lexer
pub mod Types
pub mod Args
pub mod Directive
pub mod Emission
pub mod Profile
mod Examples

-- ===== src/Session.antt =====
-- The session of the daemon: its state cell, its manager and the resolvers it captures.
pub mod State
pub mod Orchestrator
pub mod Dns

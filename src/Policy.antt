-- ===== src/Policy.antt =====
-- daemon/src/policy: the privileged routing state that pinned egress needs.
pub mod Error
pub mod Command
pub mod Plan

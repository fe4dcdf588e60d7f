-- ===== src/Link/Topics.antt =====
-- dyx3_px4_link's dds_session: which topics are stale, and resets of the session.
pub mod Ops
mod Bits
pub mod Fresh
pub mod Resets

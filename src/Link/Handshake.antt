-- ===== src/Link/Handshake.antt =====
-- dyx3_px4_link's msg_version_handshake: the formats of the messages, proven topic by topic.
pub mod Ops
pub mod Proof
pub mod Verdict
pub mod Permanent

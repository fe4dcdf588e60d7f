-- ===== src/Link/Tokens.antt =====
-- ros2_ws/src/dyx3_px4_link/{include/dyx3_px4_link,src}/spray_ack_tokens.{hpp,cpp}: the identities under
-- which spray commands are acknowledged. `Ops` is the code, `Unique` its proofs.
pub mod Ops
pub mod Unique

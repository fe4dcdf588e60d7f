-- ===== src/Link/Offboard.antt =====
-- ros2_ws/src/dyx3_px4_link/{include/dyx3_px4_link,src}/offboard_heartbeat.{hpp,cpp}: the session of
-- the OFFBOARD mode. `Ops` is the code, the rest its proofs.
pub mod Ops
pub mod Session

-- ===== src/Rpp.antt =====
-- ros2_ws/src/dyx3_rpp: the path follower.
pub mod Corner

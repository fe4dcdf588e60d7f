-- ===== src/Link.antt =====
-- ros2_ws/src/dyx3_px4_link: what touches the flight controller.
pub mod Offboard
pub mod Tokens
pub mod Setpoint
pub mod Topics
pub mod Handshake
pub mod Vehicle

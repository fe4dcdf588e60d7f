-- ===== src/Spray.antt =====
-- The spray valve's command machine, its lease and its watchdog: ros2_ws/src/dyx3_spray.
pub mod Fsm
pub mod Lease
pub mod Watchdog
pub mod Gates
pub mod Params
pub mod Boundary
pub mod Control

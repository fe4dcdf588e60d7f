-- ===== src/Rtk.antt =====
-- ros2_ws/src/dyx3_gnss_rtk: the corrections for the receiver.
pub mod Frame
pub mod Transport
pub mod Inject
pub mod Monitor

-- ===== src/Guard.antt =====
-- The motion guard's decision core: ros2_ws/src/dyx3_motion_guard.
pub mod Types
pub mod Gates
pub mod Limits
pub mod Stall
pub mod Core
pub mod Safety
pub mod Priority
pub mod Envelope
pub mod Session
pub mod Latch

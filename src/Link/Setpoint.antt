-- ===== src/Link/Setpoint.antt =====
-- dyx3_px4_link's rover_setpoint_writer: the guard's command on its way to PX4.
pub mod Ops
pub mod Safety
pub mod Stream

-- ===== src/Link/Vehicle.antt =====
-- dyx3_px4_link's vehicle_state_assembler.
pub mod Ops
pub mod Valid

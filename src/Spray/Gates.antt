-- ===== src/Spray/Gates.antt =====
-- dyx3_spray's spray_gates: when the valve may open by itself.
pub mod Ops
pub mod Recovery
pub mod Stack

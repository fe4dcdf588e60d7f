-- ===== src/Spray/Control.antt =====
-- dyx3_spray's spray_controller and flow_model.
pub mod Types
pub mod Settings
pub mod Flow
pub mod Ops
pub mod Tick
pub mod Opens
pub mod Latches

-- ===== src/Recorder/Lifecycle.antt =====
-- dyx3_recorder's run_lifecycle.
pub mod Ops
pub mod Alternate

-- ===== src/Spray/Params.antt =====
-- dyx3_spray's spray_params: the parameters of the spray package.
pub mod Types
pub mod Table
pub mod Ops
pub mod Found
pub mod Batch
pub mod Names
pub mod Run
pub mod Whole

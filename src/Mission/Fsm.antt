-- ===== src/Mission/Fsm.antt =====
-- ros2_ws/src/dyx3_mission/{include/dyx3_mission,src}/mission_fsm.{hpp,cpp}: the mission lifecycle.
-- `Types` and `Ops` are the code, `Calls` its public methods as one step; the rest are its proofs.
pub mod Types
pub mod Ops
pub mod Interrupts
pub mod Calls
pub mod Log
pub mod History
pub mod Contract
pub mod Safety

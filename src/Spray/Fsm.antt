-- ===== src/Spray/Fsm.antt =====
-- ros2_ws/src/dyx3_spray/{include/dyx3_spray,src}/spray_fsm.{hpp,cpp}: the actuator state machine.
-- `Ops` is the code; the rest are its proofs.
pub mod Types
pub mod Ops
pub mod Invariant
pub mod Tick
pub mod Safety
pub mod Confirm

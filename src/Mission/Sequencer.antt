-- ===== src/Mission/Sequencer.antt =====
-- ros2_ws/src/dyx3_mission/{include/dyx3_mission,src}/px4_sequencer.{hpp,cpp}: arm, OFFBOARD and
-- their release. `Ops` is the code; the rest are its proofs.
pub mod Types
pub mod Ops
pub mod Ownership
pub mod Release

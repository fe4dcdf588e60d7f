-- ===== src/Mission/Journal.antt =====
-- ros2_ws/src/dyx3_mission/{include/dyx3_mission,src}/point_journal.{hpp,cpp}: which of the surveyed
-- points the rover reached, and how closely. `Ops` is the code, the rest its proofs.
pub mod Ops
pub mod Order
pub mod Accuracy

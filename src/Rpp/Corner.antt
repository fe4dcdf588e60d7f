-- ===== src/Rpp/Corner.antt =====
-- ros2_ws/src/dyx3_rpp/{include/dyx3_rpp,src}/stop_pivot_fsm.{hpp,cpp}: the stop and the pivot at a
-- corner. `Stop` and `Ops` are the code, the rest its proofs.
pub mod Stop
pub mod Ops
pub mod Release

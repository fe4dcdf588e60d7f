-- ===== src/Spray/Watchdog.antt =====
-- ros2_ws/src/dyx3_spray/{include/dyx3_spray,src}/watchdog_core.{hpp,cpp}: the independent watchdog,
-- which only ever asks for OFF. `Ops` is the code; the rest are its proofs.
pub mod Ops
pub mod Safety
pub mod Proof
pub mod Epoch

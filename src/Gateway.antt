-- ===== src/Gateway.antt =====
-- ros2_ws/src/dyx3_system_gateway: what the operator's side sees, and what it may ask.
pub mod Events
pub mod Operator

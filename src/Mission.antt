-- ===== src/Mission.antt =====
-- The mission node's core: ros2_ws/src/dyx3_mission.
pub mod Fsm
pub mod Sequencer
pub mod Journal
pub mod Progress

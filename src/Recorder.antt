-- ===== src/Recorder.antt =====
-- ros2_ws/src/dyx3_recorder: when a run is recorded.
pub mod Lifecycle

-- ===== src/Mission/Progress.antt =====
-- dyx3_mission's mission_progress: the record of a mission's progress as text.
pub mod Reader
pub mod Record
pub mod Parse
pub mod Digits
pub mod Turns
pub mod RoundTrip
pub mod Files
pub mod Atomic
pub mod Stored
pub mod Valid
pub mod Points
pub mod Total

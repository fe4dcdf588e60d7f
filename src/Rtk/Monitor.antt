-- ===== src/Rtk/Monitor.antt =====
-- dyx3_gnss_rtk's correction_health and worker_state: the age and the rate of the corrections, the
-- changes of the fix, and the events of the worker.
pub mod Health
pub mod Fix
pub mod Worker

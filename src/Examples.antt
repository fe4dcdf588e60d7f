-- ===== src/Examples.antt =====
-- The theorems at concrete inputs, and small runs of the code.
mod Mission
mod Sequencer
mod Rover
mod Guard
mod Spray
mod Watchdog
mod Link
mod Rtk
mod Journal
mod Corner
mod Setpoint
mod Inject
mod Gateway
mod Valve
mod Progress
mod Painter
mod Vehicle

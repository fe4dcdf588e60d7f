-- ===== src/Gateway/Events.antt =====
-- dyx3_system_gateway's event_stream.
pub mod Ops
pub mod Conserve
pub mod Keys
pub mod Account

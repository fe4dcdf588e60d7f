-- ===== src/Rtk/Transport.antt =====
-- dyx3_gnss_rtk's rtcm_transport, which cuts a frame into the pieces that PX4 takes, and the DDS sink
-- of transport_sink, which publishes them.
pub mod Ops
pub mod Pieces
pub mod Delivery

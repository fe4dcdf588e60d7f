-- ===== src/Rtk/Frame.antt =====
-- ros2_ws/src/dyx3_gnss_rtk/{include/dyx3_gnss_rtk,src}: rtcm_parser.{hpp,cpp}, which cuts RTCM3 frames
-- out of a byte stream, and validated_frame.{hpp,cpp}, which checks one. `Ops` is the code, the rest
-- its proofs.
pub mod Ops
pub mod Scan
pub mod Chunks
pub mod Valid
pub mod RoundTrip

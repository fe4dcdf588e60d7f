-- ===== src/Rtk/Inject.antt =====
-- dyx3_gnss_rtk's injection_authority: which sink receives the corrections, and from which source.
pub mod Ops
pub mod Exclusive
pub mod Generation

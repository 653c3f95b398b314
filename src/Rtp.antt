-- ===== src/Rtp.antt =====
-- The rtp package.
pub mod Header
pub mod Payload
pub mod Stream
pub mod H264
pub mod Reception
pub mod Rtcp

-- ===== src/Srtp.antt =====
-- The srtp package.
pub mod Crypto
pub mod Roc
pub mod Warp
pub mod E2e
pub mod Sframe
pub mod Sample
pub mod Hbh

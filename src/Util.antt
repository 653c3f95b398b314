-- ===== src/Util.antt =====
-- The util package.
pub mod Participant

-- ===== src/Mlow.antt =====
-- The mlow package, as far as it works on bytes, tables and whole numbers.
pub mod Red
pub mod Range
pub mod Container
pub mod Toc

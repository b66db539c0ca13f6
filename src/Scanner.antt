-- ===== src/Scanner.antt =====
-- internal/scanner: the two scanners.
pub mod Lsof
pub mod Aggregate
pub mod Libproc
pub mod Auto

-- ===== src/Binscan.antt =====
-- src/binscan: what a binary artifact says of itself.
pub mod Bounds
pub mod Cursor
pub mod Archive

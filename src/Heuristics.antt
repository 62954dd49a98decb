-- ===== src/Heuristics.antt =====
-- src/heuristics: what the layout of a source tree says.
pub mod VendorRoot

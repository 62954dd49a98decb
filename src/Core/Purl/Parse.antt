-- ===== src/Core/Purl/Parse.antt =====
-- `Purl::parse` of src/core/purl.cpp against a description of the accepted texts.
pub mod Shape
pub mod Accept
pub mod Sound
pub mod Canonical

-- ===== src/Parsers.antt =====
-- src/parsers: what manifests and lockfiles say of the dependencies.
pub mod Conan

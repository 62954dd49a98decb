-- ===== src/Vuln.antt =====
-- src/vuln: matching components against vulnerability feeds.
pub mod Cpe
pub mod Delta
pub mod Endpoints
pub mod Finding

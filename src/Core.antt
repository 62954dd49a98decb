-- ===== src/Core.antt =====
-- src/core: what every other module of the program shares.
pub mod Text
pub mod Percent
pub mod Base64
pub mod Warnings
pub mod Purl
pub mod Model
pub mod Coverage
pub mod GitUrl
pub mod Sha256
pub mod Sha1
pub mod Uuid
pub mod BuildVariables
pub mod GitConfig
pub mod JsonUtils

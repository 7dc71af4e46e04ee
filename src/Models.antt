-- ===== src/Models.antt =====
-- The types of package models: versions, host names, and the responses of the transparency log.
pub mod Version
pub mod Fqdn
pub mod TlLog

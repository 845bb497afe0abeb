-- ===== src/Configuration.antt =====
-- The package `configuration`: what the importer and the import job are configured with.
pub mod Types
pub mod Validate
pub mod Secrets
pub mod Reading

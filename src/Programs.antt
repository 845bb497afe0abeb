-- ===== src/Programs.antt =====
-- The two programs: what they do before they migrate, cmd/ces-importer and cmd/import-job.
pub mod Preflight
pub mod Importer
pub mod Migrator
pub mod Job
pub mod Executer

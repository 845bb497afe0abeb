-- ===== src/Migration.antt =====
-- The package `migration`: the data that the importer and the exporter exchange, the run of one
-- migration, its schedule, and the job that copies the data.
pub mod Types
pub mod Context
pub mod ExportMode
pub mod Timestamp
pub mod Schedule
pub mod Manual
pub mod Runner
pub mod Job
pub mod Fqdn
pub mod Config
pub mod Sync
pub mod Executer

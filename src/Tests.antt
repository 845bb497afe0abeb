-- ===== src/Tests.antt =====
-- Concrete inputs: the theorems applied to them, and runs of the definitions.
mod Runner
mod Schedule
mod Cluster
mod Systems
mod Jobs
mod Fqdn
mod Config
mod Managers
mod Exporter
mod Mail
mod Settings
mod Programs
mod Migrator
mod Executer
mod Logging

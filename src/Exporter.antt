-- ===== src/Exporter.antt =====
-- The package `api/exporter`: the client of the exporter's API and the services on it.
pub mod Client
pub mod Data
pub mod Tls
pub mod Maintenance
pub mod Services

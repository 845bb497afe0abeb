-- ===== src/Migration/Job.antt =====
-- The import job of a migration: its specification and its run.
pub mod Volumes
pub mod Provider
pub mod Service

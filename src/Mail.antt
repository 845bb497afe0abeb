-- ===== src/Mail.antt =====
-- The package `mail`: the report on a migration and its sending.
pub mod Smtp
pub mod Report
pub mod Sender

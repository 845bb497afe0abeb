-- ===== src/SystemInfo.antt =====
-- The package `systeminfo`: what both systems hold, the check that they fit, and the volume resize.
pub mod Names
pub mod Validator
pub mod Resizer
pub mod Provider

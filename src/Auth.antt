-- ===== src/Auth.antt =====
-- src/modules/auth/services: what users may do how often.
pub mod Violations
pub mod Quota
mod Memory
mod Examples

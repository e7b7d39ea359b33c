-- ===== src/RequestQueue.antt =====
-- src/modules/request-queue/request-queue.service.ts: the applications of users for a role, and the
-- decisions of administrators about them.
pub mod Types
pub mod Database
pub mod Rows
pub mod Requests
pub mod Approved
pub mod Decisions
pub mod Runs
pub mod Kept
pub mod Roles
pub mod Bulk
mod Memory
mod Examples

-- ===== src/Gateway.antt =====
-- The API gateway: src/modules/gateway.
pub mod Types
pub mod Table
pub mod Balancer
pub mod Breaker
mod Examples

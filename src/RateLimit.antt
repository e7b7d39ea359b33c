-- ===== src/RateLimit.antt =====
-- src/modules/gateway/rate-limiting: the strategies that decide whether a request is allowed.
pub mod Types
pub mod Redis
pub mod SlidingWindow
pub mod FixedWindow
pub mod LeakyBucket
pub mod Memory
mod Examples

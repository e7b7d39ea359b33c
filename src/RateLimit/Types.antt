-- ===== src/RateLimit/Types.antt =====
-- The data of the strategies: interfaces/rate-limit-strategy.interface.ts, with the metadata left out.
use mash_backend.Prelude.{ℕ, Bool, Option}

pub record RateLimitConfig : Type 0 where
  pub limit : ℕ
  pub window_ms : ℕ

pub record RateLimitResult : Type 0 where
  pub allowed : Bool
  pub current : ℕ
  pub limit : ℕ
  pub remaining : ℕ
  pub reset_ms : ℕ
  pub retry_after_ms : Option ℕ

-- ===== src/Gateway/Types.antt =====
-- The data that the parts of the gateway share: the enums of prisma/schema.prisma and the records of
-- src/modules/gateway/interfaces.
use mash_backend.Prelude.{ℕ, String, Bool, Option}

pub data LoadBalancingStrategy : Type 0 where
  round_robin least_connections weighted_round_robin ip_hash health_based : LoadBalancingStrategy

pub record ServiceInstance : Type 0 where
  pub url : String
  pub healthy : Bool
  pub last_checked : ℕ
  pub response_time : ℕ
  pub active_connections : ℕ
  pub weight : Option ℕ

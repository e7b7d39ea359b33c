-- ===== src/RequestQueue/Types.antt =====
-- The data of the request queue: the model of prisma/schema.prisma and the parts of its JSON columns that
-- request-queue.service.ts reads.
use mash_backend.Prelude.{ℕ, String, Option}
use mash_backend.Orders.Types.{UserRole}

pub data RequestStatus : Type 0 where
  pending processing completed failed expired : RequestStatus

-- `payload?.requestedRole`: not there, a role, or a value that is none.
pub data RequestedRole : Type 0 where
  not_given no_role : RequestedRole
  role : UserRole → RequestedRole

pub record Payload : Type 0 where
  pub current_role : Option UserRole
  pub requested_role : RequestedRole
  -- The rest of the JSON text.
  pub details : String

pub data Headers : Type 0 where
  given : String → Headers
  -- By whom, with what notes, and when.
  approval rejection : String → Option String → ℕ → Headers

pub data Message : Type 0 where
  told : String → Message
  rejected_by_admin update_failed : Message

pub record Request : Type 0 where
  pub user_id : Option String
  pub endpoint : String
  pub method : String
  pub priority : ℕ
  pub payload : Option Payload
  pub headers : Option Headers
  pub status : RequestStatus
  pub queued_at : ℕ
  pub processed_at : Option ℕ
  pub completed_at : Option ℕ
  pub expires_at : ℕ
  pub error_message : Option Message

pub record User : Type 0 where
  pub email : String
  pub user_role : UserRole

pub data Error : Type 0 where
  not_found bad_request record_missing invalid_value : Error

pub data Result {ℓ} (A : Type ℓ) : Type ℓ where
  ok : A → Result A
  err : Error → Result A

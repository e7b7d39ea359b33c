-- ===== src/RequestQueue/Rows.antt =====
-- The rows that the handlers of request-queue.service.ts write, and what a bulk call counts.
use mash_backend.Prelude.{
  ℕ, zero, suc, ◌+◌, ◌*◌, String, Bool, true, false, Option, none, some, List, [], ◌∷◌,
  if◌then◌else◌, ◌===◌, string_eq,
}
use mash_backend.Orders.Types.{UserRole, user, admin}
use mash_backend.RequestQueue.Types.{
  RequestStatus, pending, processing, completed, failed, RequestedRole, not_given, role, Payload,
  Headers, approval, rejection, Message, told, rejected_by_admin, update_failed, Request, Result,
  ok, err,
}
use mash_backend.RequestQueue.Database.{seller_endpoint}

abbrev pub is_user : UserRole → Bool
is_user user = true
is_user _ = false

abbrev pub is_pending : RequestStatus → Bool
is_pending pending = true
is_pending _ = false

-- 24 * 60 * 60 * 1000.
abbrev pub day : ℕ
day = 86400000

-- `n || d`.
abbrev pub or_default : Option ℕ → ℕ → ℕ
or_default none d = d
or_default (some zero) d = d
or_default (some (suc n)) d = suc n

pub record RequestData : Type 0 where
  pub user_id : Option String
  pub endpoint : String
  pub method : String
  pub priority : Option ℕ
  pub payload : Option Payload
  pub headers : Option Headers
  pub expires_in_days : Option ℕ

-- The row that `createRequest` creates.
unfoldable pub new_request : RequestData → ℕ → Request
new_request d now = record {
  user_id = d.user_id;
  endpoint = d.endpoint;
  method = d.method;
  priority = or_default d.priority 50;
  payload = d.payload;
  headers = d.headers;
  status = pending;
  queued_at = now;
  processed_at = none;
  completed_at = none;
  expires_at = now + or_default d.expires_in_days 30 * day;
  error_message = none;
}

-- The row that `createRoleChangeRequest` creates.
unfoldable pub new_application : String → UserRole → String → ℕ → Request
new_application id current details now = record {
  user_id = some id;
  endpoint = seller_endpoint;
  method = "POST";
  priority = 70;
  payload =
      some (record { current_role = some current; requested_role = role admin; details = details });
  headers = none;
  status = pending;
  queued_at = now;
  processed_at = none;
  completed_at = none;
  expires_at = now + 30 * day;
  error_message = none;
}

-- `if (errorMessage)`.
abbrev pub or_message : Option String → Option Message → Option Message
or_message none old = old
or_message (some t) old = if t === "" then old else some (told t)

-- The data of `updateRequestStatus`.
unfoldable pub with_status : RequestStatus → Option String → ℕ → Request → Request
with_status processing message now row = record row { status = processing; processed_at = some now }
with_status completed message now row = record row {
  status = completed;
  completed_at = some now;
  error_message = or_message message row.error_message;
}
with_status failed message now row = record row {
  status = failed;
  completed_at = some now;
  error_message = or_message message row.error_message;
}
with_status s message now row = record row { status = s }

-- The updates of a decision.
unfoldable pub start : ℕ → Request → Request
start now row = record row { status = processing; processed_at = some now }

-- `adminNotes || null`.
abbrev pub or_null : Option String → Option String
or_null none = none
or_null (some t) = if t === "" then none else some t

unfoldable pub complete : String → Option String → ℕ → Request → Request
complete by notes now row = record row {
  status = completed;
  completed_at = some now;
  headers = some (approval by (or_null notes) now);
}

unfoldable pub fail : ℕ → Request → Request
fail now row = record row {
  status = failed;
  completed_at = some now;
  error_message = some update_failed;
}

-- `adminNotes || 'Request rejected'`.
abbrev pub or_rejected : Option String → String
or_rejected none = "Request rejected"
or_rejected (some t) = if t === "" then "Request rejected" else t

unfoldable pub reject : String → Option String → ℕ → Request → Request
reject by notes now row = record row {
  status = failed;
  processed_at = some now;
  completed_at = some now;
  error_message = some rejected_by_admin;
  headers = some (rejection by (some (or_rejected notes)) now);
}

-- `(request.payload as any)?.requestedRole`.
abbrev pub requested : Request → RequestedRole
requested r = elim r.payload [ none ↦ not_given | some p ↦ p.requested_role ]

-- What the loop of a bulk call counts and collects: the ids, each with whether its call went through.
pub record Tally : Type 0 where
  pub succeeded : ℕ
  pub failures : ℕ
  pub results : List (String × Bool)

pub record BulkResult : Type 0 where
  pub tally : Tally
  pub total : ℕ

abbrev pub nothing_done : Tally
nothing_done = record { succeeded = 0; failures = 0; results = [] }

abbrev pub counted : String → Bool → Tally → Tally
counted id true b = record b { succeeded = suc b.succeeded; results = (id, true) ∷ b.results }
counted id false b = record b { failures = suc b.failures; results = (id, false) ∷ b.results }

abbrev pub went_through : {A : Type 0} → Result A → Bool
went_through (ok _) = true
went_through (err _) = false

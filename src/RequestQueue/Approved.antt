-- ===== src/RequestQueue/Approved.antt =====
-- What an approval makes of a request and of its user (request-queue.service.ts).
use mash_backend.Prelude.{
  ℕ, ◌≡◌, ◌≢◌, refl, ◌⊎◌, inl, inr, String, true, Option, none, some, ◌===◌, if◌then◌else◌,
  string_eq,
}
use mash_backend.RequestQueue.Types.{
  RequestStatus, pending, processing, completed, failed, expired, approval, update_failed,
  RequestedRole, not_given, no_role, role, Request, User,
}
use mash_backend.RequestQueue.Rows.{is_pending}

-- The user with the role that was asked for, if one was.
abbrev pub promoted : RequestedRole → User → User
promoted (role x) u = record u { user_role = x }
promoted _ u = u

-- The role that the request asks for.
abbrev pub asked : Request → RequestedRole
asked r = elim r.payload [ none ↦ not_given | some p ↦ p.requested_role ]

-- The text, where there is one that is not empty.
abbrev pub unless_empty : Option String → Option String
unless_empty none = none
unless_empty (some t) = if t === "" then none else some t

-- The request, approved by that user.
abbrev pub approved_row : String → Option String → ℕ → Request → Request
approved_row by notes now r = record r {
  status = completed;
  processed_at = some now;
  completed_at = some now;
  headers = some (approval by (unless_empty notes) now);
}

-- The request, for which the role could not be given.
abbrev pub failed_row : ℕ → Request → Request
failed_row now r = record r {
  status = failed;
  processed_at = some now;
  completed_at = some now;
  error_message = some update_failed;
}

pub RequestedRole-cases : (r : RequestedRole) → (r ≡ no_role) ⊎ (r ≢ no_role)
RequestedRole-cases not_given = inr (λ e. cc)
RequestedRole-cases no_role = inl refl
RequestedRole-cases (role x) = inr (λ e. cc)

pub is_pending-pending : (x : RequestStatus) → is_pending x ≡ true → x ≡ pending
is_pending-pending pending h = refl
is_pending-pending processing h = absurd cc
is_pending-pending completed h = absurd cc
is_pending-pending failed h = absurd cc
is_pending-pending expired h = absurd cc

-- ===== src/SellerVerification/Documents.antt =====
-- The calls of seller-verification.service.ts that change an application: new documents, the review of one,
-- and the request to send some again. The clock's values are arguments. The mail and the notification of
-- the last change nothing here, and what they throw is caught.
use mash_backend.Prelude.{
  ℕ, ◌+◌, ◌*◌, String, Bool, true, false, not, Option, none, some, List, [], ◌∷◌, if◌then◌else◌,
  ◌===◌, string_eq,
}
use mash_backend.RequestQueue.Types.{
  RequestStatus, pending, processing, not_found, bad_request, Result, ok, err,
}
use mash_backend.RequestQueue.Database.{seller_endpoint}
use mash_backend.RequestQueue.Rows.{or_default, or_null, day}
use mash_backend.SellerVerification.Types.{
  DocumentReviewStatus, review_pending, review_resubmission, DocumentType, ByType, at, assign, both,
  Review, Payload, Application, UpdateSellerDocuments, ReviewDocument, RequestResubmission,
}
use mash_backend.SellerVerification.Database.{ApplicationStore}

-- The statuses of `updateDocuments`.
abbrev pub is_open : RequestStatus → Bool
is_open pending = true
is_open processing = true
is_open _ = false

abbrev pub unreviewed : Review
unreviewed = record {
  review_status = review_pending;
  reviewed_at = none;
  reviewed_by = none;
  notes = none;
  issues = none;
}

-- The URL under a type after `...(new && { type: new })`.
abbrev pub replaced : Option String → Option String → Option String
replaced new old = elim (or_null new) [ none ↦ old | some url ↦ some url ]

-- Its review.
abbrev pub reset : Option String → Option Review → Option Review
reset new old = elim (or_null new) [ none ↦ old | some _ ↦ some unreviewed ]

-- The keys of the body.
abbrev pub is_given : Option String → Bool
is_given none = false
is_given (some _) = true

abbrev pub given : UpdateSellerDocuments → ByType Bool
given dto = both (λ new _. is_given new) dto.new_documents dto.new_documents

unfoldable pub with_documents : UpdateSellerDocuments → ℕ → Payload → Payload
with_documents dto now p = record p {
  documents = both replaced dto.new_documents p.documents;
  document_review_status = both reset dto.new_documents p.document_review_status;
  last_resubmission_at = some now;
  resubmission_notes = dto.new_notes;
}

unfoldable pub resubmitted : UpdateSellerDocuments → ℕ → Application → Application
unfolding with_documents
resubmitted dto now r = record r { status = pending; payload = with_documents dto now r.payload }

unfoldable pub reviewed : DocumentType → ReviewDocument → String → ℕ → Application → Application
reviewed t dto by now r =
    let review : Review = record {
      review_status = dto.decision;
      reviewed_at = some now;
      reviewed_by = some by;
      notes = dto.review_notes;
      issues = dto.review_issues;
    } in
    let p = r.payload in
    record r {
      payload = record p {
        document_review_status = assign t (some review) p.document_review_status;
      };
    }

-- `instructions?.[docType] || reason`.
abbrev pub instruction : RequestResubmission → DocumentType → String
instruction dto t = elim (or_null (at t dto.instructions)) [ none ↦ dto.reason | some i ↦ i ]

abbrev pub sent_back : RequestResubmission → String → ℕ → DocumentType → Review
sent_back dto by now t = record {
  review_status = review_resubmission;
  reviewed_at = some now;
  reviewed_by = some by;
  notes = some (instruction dto t);
  issues = none;
}

unfoldable pub marked :
    RequestResubmission
    → String
    → ℕ
    → List DocumentType
    → ByType (Option Review)
    → ByType (Option Review)
marked dto by now [] d = d
marked dto by now (t ∷ ts) d = marked dto by now ts (assign t (some (sent_back dto by now t)) d)

unfoldable pub returned : RequestResubmission → String → ℕ → Application → Application
unfolding marked
returned dto by now r =
    let p = r.payload in
    let h = r.headers in
    record r {
      status = pending;
      payload = record p {
        document_review_status =
            marked dto by now dto.documents_to_resubmit p.document_review_status;
        is_resubmission_required = true;
        resubmission_reason = some dto.reason;
        resubmission_deadline = some (now + or_default dto.deadline_days 7 * day);
        resubmission_requested_at = some now;
        resubmission_requested_by = some by;
      };
      headers = record h { requested_at = some now; requested_by = some by };
    }

module _ (s : ApplicationStore) where
  open s use {Db, contents, latest, update_request}

  abbrev pub find_application : Db → String → Option Application
  find_application db id = (contents db).requests id

  unfoldable pub update_documents :
      Db → String → UpdateSellerDocuments → ℕ → Db × Result (String × ByType Bool)
  unfolding resubmitted
  update_documents db user dto now = elim (latest db user is_open) [
    | none ↦ (db, err not_found)
    | some (id, r) ↦ (update_request db id (resubmitted dto now), ok (id, given dto))
  ]

  unfoldable pub review_document :
      Db
      → String
      → DocumentType
      → ReviewDocument
      → String
      → ℕ
      → Db × Result (DocumentType × DocumentReviewStatus × ℕ)
  unfolding reviewed
  review_document db id t dto by now = elim (find_application db id) [
    | none ↦ (db, err not_found)
    | some r ↦
        if not (r.endpoint === seller_endpoint)
        then (db, err bad_request)
        else (update_request db id (reviewed t dto by now), ok (t, dto.decision, now))
  ]

  unfoldable pub request_resubmission :
      Db → String → RequestResubmission → String → ℕ → Db × Result (Unit {0})
  unfolding returned
  request_resubmission db id dto by now = elim (find_application db id) [
    | none ↦ (db, err not_found)
    | some r ↦ (update_request db id (returned dto by now), ok tt)
  ]

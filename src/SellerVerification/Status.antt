-- ===== src/SellerVerification/Status.antt =====
-- What seller-verification.service.ts answers about an application.
use Prim.Native.String.{◌++◌ as text_append}
use mash_backend.Prelude.{
  ℕ, String, Bool, true, false, not, Option, none, some, List, [], ◌∷◌, if◌then◌else◌,
}
use mash_backend.RequestQueue.Types.{RequestStatus, pending, processing, completed, failed}
use mash_backend.RequestQueue.Rows.{is_pending, or_null}
use mash_backend.SellerVerification.Types.{
  DocumentReviewStatus, review_pending, review_resubmission, SellerApplicationStatus,
  application_pending, email_verification_required, documents_under_review, resubmission_required,
  application_approved, application_rejected, DocumentType, government_id, bir_certificate,
  business_certificate, at, Review, Payload, Application, Applicant,
}
use mash_backend.SellerVerification.Database.{ApplicationStore}
use mash_backend.SellerVerification.Timeline.{TimelineEvent, build_timeline}

-- `request.user?.emailVerified`.
abbrev pub is_verified : Option Applicant → Bool
is_verified none = false
is_verified (some u) = u.email_verified

unfoldable pub determine_application_status :
    RequestStatus → Payload → Option Applicant → SellerApplicationStatus
determine_application_status completed p user = application_approved
determine_application_status failed p user = application_rejected
determine_application_status status p user =
    if p.is_resubmission_required
    then resubmission_required
    else if is_processing status
    then documents_under_review
    else if not (is_verified user)
    then email_verification_required
    else application_pending
  where
    is_processing : RequestStatus → Bool
    is_processing processing = true
    is_processing _ = false

pub record DocumentStatus : Type 0 where
  pub type : DocumentType
  pub url : String
  pub review_status : DocumentReviewStatus
  pub reviewer_notes : Option String
  pub reviewed_at : Option ℕ
  pub submitted_at : Option ℕ

-- `text || ''`.
abbrev pub or_empty : Option String → String
or_empty none = ""
or_empty (some t) = t

-- `text || default`.
abbrev pub or_text : Option String → String → String
or_text o d = elim (or_null o) [ none ↦ d | some t ↦ t ]

abbrev pub status_of : Option Review → DocumentReviewStatus
status_of none = review_pending
status_of (some v) = v.review_status

abbrev pub document : Payload → DocumentType → DocumentStatus
document p t =
    let review = at t p.document_review_status in
    record {
      type = t;
      url = or_empty (at t p.documents);
      review_status = status_of review;
      reviewer_notes = elim review [ none ↦ none | some v ↦ v.notes ];
      reviewed_at = elim review [ none ↦ none | some v ↦ v.reviewed_at ];
      submitted_at = p.submitted_at;
    }

unfoldable pub build_document_status : Payload → List DocumentStatus
build_document_status p =
    document p government_id ∷ document p bir_certificate ∷ document p business_certificate ∷ []

unfoldable pub calculate_progress : SellerApplicationStatus → ℕ
calculate_progress application_approved = 100
calculate_progress application_rejected = 100
calculate_progress documents_under_review = 60
calculate_progress resubmission_required = 40
calculate_progress email_verification_required = 20
calculate_progress application_pending = 30

abbrev pub type_text : DocumentType → String
type_text government_id = "governmentId"
type_text bir_certificate = "birCertificate"
type_text business_certificate = "businessCertificate"

abbrev pub is_resubmission : DocumentReviewStatus → Bool
is_resubmission review_resubmission = true
is_resubmission _ = false

-- `.filter(d => d.status === RESUBMISSION_REQUIRED)`.
unfoldable pub docs_to_resubmit : List DocumentStatus → List DocumentType
docs_to_resubmit [] = []
docs_to_resubmit (d ∷ ds) =
    let rest = docs_to_resubmit ds in
    if is_resubmission d.review_status then d.type ∷ rest else rest

-- `.map(d => d.type).join(', ')`.
unfoldable pub joined : List DocumentType → String
joined [] = ""
joined (t ∷ []) = type_text t
joined (t ∷ u ∷ ts) = text_append (type_text t) (text_append ", " (joined (u ∷ ts)))

unfoldable pub generate_next_steps : SellerApplicationStatus → List DocumentStatus → List String
unfolding docs_to_resubmit joined
generate_next_steps email_verification_required ds =
    "Verify your email address to proceed with the application"
    ∷ "Check your inbox for the verification email" ∷ []
generate_next_steps application_pending ds =
    "Your application is in the queue for review" ∷ "We will notify you once the review begins" ∷ []
generate_next_steps documents_under_review ds =
    "Our team is reviewing your submitted documents"
    ∷ "You will be notified of the outcome within 1-3 business days" ∷ []
generate_next_steps resubmission_required ds =
    text_append "Resubmit the following documents: " (joined (docs_to_resubmit ds))
    ∷ "Review the feedback provided for each document"
    ∷ []
generate_next_steps application_approved ds =
    "Set up your seller profile" ∷ "Add your first product to the catalog"
    ∷ "Configure your shipping and payment settings" ∷ []
generate_next_steps application_rejected ds =
    "Review the rejection reason" ∷ "Address the issues mentioned"
    ∷ "Submit a new application when ready" ∷ []

unfoldable pub get_estimated_completion_time : SellerApplicationStatus → String
get_estimated_completion_time application_pending = "1-3 business days"
get_estimated_completion_time documents_under_review = "1-2 business days"
get_estimated_completion_time resubmission_required = "Depends on your resubmission"
get_estimated_completion_time application_approved = "Complete"
get_estimated_completion_time application_rejected = "Complete"
get_estimated_completion_time _ = "2-5 business days"

pub record StatusData : Type 0 where
  pub request_id : String
  pub application_status : SellerApplicationStatus
  pub email_verified : Bool
  pub current_role : Option String
  pub requested_role : String
  pub documents : List DocumentStatus
  pub business_name : String
  pub business_type : String
  pub city : String
  pub region : String
  pub admin_notes : Option String
  pub rejection_reason : Option String
  pub submitted_at : ℕ
  pub processed_at : Option ℕ
  pub estimated_completion_time : String
  pub progress_percentage : ℕ
  pub next_steps : List String

abbrev pub rejection : RequestStatus → Option String → Option String
rejection failed message = message
rejection _ message = none

unfoldable pub status_data : String → Application → Option Applicant → StatusData
unfolding determine_application_status build_document_status calculate_progress generate_next_steps
    get_estimated_completion_time
status_data id r user =
    let p = r.payload in
    let status = determine_application_status r.status p user in
    let ds = build_document_status p in
    record {
      request_id = id;
      application_status = status;
      email_verified = is_verified user;
      current_role = elim (or_null p.current_role) [
        | none ↦ elim user [ none ↦ none | some u ↦ some u.user_role ]
        | some t ↦ some t
      ];
      requested_role = or_text p.requested_role "GROWER";
      documents = ds;
      business_name = or_empty p.business_name;
      business_type = or_empty p.business_type;
      city = or_empty p.city;
      region = or_empty p.region;
      admin_notes = r.headers.admin_notes;
      rejection_reason = rejection r.status r.error_message;
      submitted_at = r.queued_at;
      processed_at = r.processed_at;
      estimated_completion_time = get_estimated_completion_time status;
      progress_percentage = calculate_progress status;
      next_steps = generate_next_steps status ds;
    }

pub data SellerStatus : Type 0 where
  no_status in_review approved rejected : SellerStatus

pub record MySellerStatus : Type 0 where
  pub has_pending_request : Bool
  pub seller_status : SellerStatus
  pub request_id : Option String
  pub submitted_at : Option ℕ

-- `statusMap[request.status] ?? 'none'`; `in_review` is 'pending'.
abbrev pub status_map : RequestStatus → SellerStatus
status_map pending = in_review
status_map completed = approved
status_map failed = rejected
status_map processing = in_review
status_map _ = no_status

abbrev pub any_status : RequestStatus → Bool
any_status _ = true

module _ (s : ApplicationStore) where
  open s use {Db, contents, latest}

  abbrev pub applicant : Db → Option String → Option Applicant
  applicant db none = none
  applicant db (some id) = (contents db).users id

  -- Nothing where `hasApplication` is false.
  unfoldable pub get_verification_status : Db → String → Option (StatusData × List TimelineEvent)
  unfolding status_data build_timeline
  get_verification_status db user = elim (latest db user any_status) [
    | none ↦ none
    | some (id, r) ↦ some (status_data id r (applicant db r.user_id), build_timeline r)
  ]

  unfoldable pub check_my_seller_status : Db → String → MySellerStatus
  check_my_seller_status db user = elim (latest db user any_status) [
    | none ↦ record {
      has_pending_request = false;
      seller_status = no_status;
      request_id = none;
      submitted_at = none;
    }
    | some (id, r) ↦ record {
      has_pending_request = is_pending r.status;
      seller_status = status_map r.status;
      request_id = some id;
      submitted_at = some r.queued_at;
    }
  ]

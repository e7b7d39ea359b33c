-- ===== src/SellerVerification/Types.antt =====
-- The data of seller-verification.service.ts: the enums of seller-verification.dto.ts, the columns of a
-- request that the service reads, and the fields that it reads or writes of the two JSON columns. A
-- column that is null reads as one without fields.
use mash_backend.Prelude.{ℕ, String, Bool, Option, List}
use mash_backend.RequestQueue.Types.{RequestStatus}

pub data DocumentReviewStatus : Type 0 where
  review_pending review_approved review_rejected review_resubmission : DocumentReviewStatus

pub data SellerApplicationStatus : Type 0 where
  application_pending email_verification_required documents_under_review resubmission_required
        application_approved application_rejected :
      SellerApplicationStatus

pub data DocumentType : Type 0 where
  government_id bir_certificate business_certificate : DocumentType

-- An object with a field per type of document.
pub record ByType (A : Type 0) : Type 0 where
  pub of_government_id : A
  pub of_bir_certificate : A
  pub of_business_certificate : A

abbrev pub at : {A : Type 0} → DocumentType → ByType A → A
at government_id d = d.of_government_id
at bir_certificate d = d.of_bir_certificate
at business_certificate d = d.of_business_certificate

abbrev pub assign : {A : Type 0} → DocumentType → A → ByType A → ByType A
assign government_id a d = record d { of_government_id = a }
assign bir_certificate a d = record d { of_bir_certificate = a }
assign business_certificate a d = record d { of_business_certificate = a }

abbrev pub both : {A B C : Type 0} → (A → B → C) → ByType A → ByType B → ByType C
both f d e = record {
  of_government_id = f d.of_government_id e.of_government_id;
  of_bir_certificate = f d.of_bir_certificate e.of_bir_certificate;
  of_business_certificate = f d.of_business_certificate e.of_business_certificate;
}

pub record Review : Type 0 where
  pub review_status : DocumentReviewStatus
  pub reviewed_at : Option ℕ
  pub reviewed_by : Option String
  pub notes : Option String
  pub issues : Option (List String)

pub record Payload : Type 0 where
  pub current_role : Option String
  pub requested_role : Option String
  pub business_name : Option String
  pub business_type : Option String
  pub city : Option String
  pub region : Option String
  pub submitted_at : Option ℕ
  pub documents : ByType (Option String)
  pub document_review_status : ByType (Option Review)
  pub last_resubmission_at : Option ℕ
  pub resubmission_notes : Option String
  pub is_resubmission_required : Bool
  pub resubmission_reason : Option String
  pub resubmission_deadline : Option ℕ
  pub resubmission_requested_at : Option ℕ
  pub resubmission_requested_by : Option String

pub record Headers : Type 0 where
  pub admin_notes : Option String
  pub requested_at : Option ℕ
  pub requested_by : Option String

pub record Application : Type 0 where
  pub user_id : Option String
  pub endpoint : String
  pub status : RequestStatus
  pub payload : Payload
  pub headers : Headers
  pub queued_at : ℕ
  pub processed_at : Option ℕ
  pub completed_at : Option ℕ
  pub error_message : Option String

pub record Applicant : Type 0 where
  pub user_role : String
  pub email_verified : Bool

pub record UpdateSellerDocuments : Type 0 where
  pub new_documents : ByType (Option String)
  pub new_notes : Option String

pub record ReviewDocument : Type 0 where
  pub decision : DocumentReviewStatus
  pub review_notes : Option String
  pub review_issues : Option (List String)

pub record RequestResubmission : Type 0 where
  pub documents_to_resubmit : List DocumentType
  pub reason : String
  pub instructions : ByType (Option String)
  pub deadline_days : Option ℕ

-- ===== src/SellerVerification/Examples.antt =====
-- The theorems about sellers' applications at concrete inputs, on a database in memory.
use mathlib.Core.List.{Mem}
use mash_backend.Prelude.{ℕ, ◌≡◌, ◌⊎◌, refl, String, true, false, none, some, List, [], ◌∷◌, get}
use mash_backend.RequestQueue.Types.{pending, processing, completed, not_found, ok, err}
use mash_backend.RequestQueue.Database.{seller_endpoint}
use mash_backend.SellerVerification.Types.{
  review_approved, resubmission_required, DocumentType, government_id, bir_certificate, ByType,
  Payload, Application, Applicant, UpdateSellerDocuments, ReviewDocument, RequestResubmission,
}
use mash_backend.SellerVerification.Documents.{
  find_application, update_documents, request_resubmission, returned,
}
use mash_backend.SellerVerification.Status.{determine_application_status}
use mash_backend.SellerVerification.Timeline.{application_rejected, event, build_timeline}
use mash_backend.SellerVerification.Timeline.Reopened.{request_resubmission-build_timeline}
use mash_backend.SellerVerification.Reviews.{keys_of, Sent, AskedFor, Open}
use mash_backend.SellerVerification.Effects.{
  Latest, Rewritten, update_documents_effect, request_resubmission_effect,
}
use mash_backend.SellerVerification.Flagged.{
  Call, sending, reviewing, run, stays_resubmission_required,
}
use mash_backend.SellerVerification.Memory.{Tables, memory}

abbrev three : {A : Type 0} → A → ByType A
three a = record { of_government_id = a; of_bir_certificate = a; of_business_certificate = a }

abbrev payload : Payload
payload = record {
  current_role = some "USER";
  requested_role = some "GROWER";
  business_name = some "Kabute";
  business_type = none;
  city = none;
  region = none;
  submitted_at = none;
  documents = three (some "old");
  document_review_status = three none;
  last_resubmission_at = none;
  resubmission_notes = none;
  is_resubmission_required = false;
  resubmission_reason = none;
  resubmission_deadline = none;
  resubmission_requested_at = none;
  resubmission_requested_by = none;
}

-- An application that was approved at 5, and one that is under review.
abbrev done : Application
done = record {
  user_id = some "ana";
  endpoint = seller_endpoint;
  status = completed;
  payload = payload;
  headers = record { admin_notes = none; requested_at = none; requested_by = none };
  queued_at = 1;
  processed_at = some 3;
  completed_at = some 5;
  error_message = none;
}

abbrev started : Application
started = record done { status = processing; queued_at = 2; completed_at = none }

abbrev ana : Applicant
ana = record { user_role = "USER"; email_verified = true }

abbrev db : Tables
db = record { requests = ("r1", done) ∷ ("r2", started) ∷ []; users = ("ana", ana) ∷ [] }

abbrev new_id : UpdateSellerDocuments
new_id = record {
  new_documents = record {
    of_government_id = some "new";
    of_bir_certificate = none;
    of_business_certificate = some "";
  };
  new_notes = none;
}

abbrev again : RequestResubmission
again = record {
  documents_to_resubmit = government_id ∷ bir_certificate ∷ [];
  reason = "blurred";
  instructions = three none;
  deadline_days = none;
}

abbrev fine : ReviewDocument
fine = record { decision = review_approved; review_notes = none; review_issues = none }

update_documents_effect_example :
    let x = update_documents memory db "ana" new_id 9 in
    ((id : String) × (r : Application) × (r' : Application) × Latest memory db "ana" id r
      × (x.1 ≡ ok (id, keys_of new_id))
      × Rewritten memory db x.0 id r'
      × (r'.status ≡ pending)
      × ((t : DocumentType) → Sent new_id r r' t))
    ⊎ (((j : String) (q : Application) → find_application memory db j ≡ some q → Open "ana" q → ⊥)
        × (x ≡ (db, err not_found)))
update_documents_effect_example = update_documents_effect memory db "ana" new_id 9

request_resubmission_effect_example :
    let x = request_resubmission memory db "r1" again "root" 9 in
    ((r : Application) × (r' : Application) × (find_application memory db "r1" ≡ some r)
      × (x.1 ≡ ok tt)
      × Rewritten memory db x.0 "r1" r'
      × (r'.status ≡ pending)
      × (r'.payload.documents ≡ r.payload.documents)
      × (r'.payload.is_resubmission_required ≡ true)
      × ((t : DocumentType) → AskedFor again "root" 9 r r' t))
    ⊎ ((find_application memory db "r1" ≡ none) × (x ≡ (db, err not_found)))
request_resubmission_effect_example = request_resubmission_effect memory db "r1" again "root" 9

-- All that was asked for is sent and approved.
abbrev calls : List (Call × ℕ)
calls =
    (sending "ana" (record new_id { new_documents = three (some "new") }), 10)
    ∷ (reviewing "r2" government_id fine "root", 11)
    ∷ (reviewing "r2" bir_certificate fine "root", 12)
    ∷ []

abbrev sent_back : Tables
unfolding returned
sent_back = record db { requests = ("r2", returned again "root" 9 started) ∷ [] }

stays_resubmission_required_example :
    (r' : Application) × (find_application memory (run memory sent_back calls) "r2" ≡ some r')
    × (determine_application_status r'.status r'.payload (some ana) ≡ resubmission_required)
unfolding get returned
stays_resubmission_required_example =
    stays_resubmission_required memory calls sent_back "r2" (returned again "root" 9 started)
      (some ana) refl (record { flag = refl; undecided = refl })

request_resubmission-build_timeline_example :
    (r' : Application) × (find_application memory
        (request_resubmission memory db "r1" again "root" 9).0
        "r1"
      ≡ some r')
    × (r'.status ≡ pending)
    × Mem (event application_rejected 5 none) (build_timeline r')
unfolding get
request_resubmission-build_timeline_example =
    request_resubmission-build_timeline memory db "r1" again "root" 9 done 5 refl refl refl

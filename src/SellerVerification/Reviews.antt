-- ===== src/SellerVerification/Reviews.antt =====
-- What becomes of the documents and their reviews in the calls of seller-verification.service.ts.
use mash_backend.Prelude.{
  ℕ, ◌≡◌, ◌≢◌, arith, ===_iff, refl, ap, ◌∙◌, ◌⊎◌, inl, inr, String, Bool, true, false, ◌||◌,
  Option, none, some, List, [], ◌∷◌, ◌===◌, if◌then◌else◌, string_eq, Bool-cases,
}
use mash_backend.RequestQueue.Database.{seller_endpoint}
use mash_backend.RequestQueue.Types.{RequestStatus, pending, processing, completed, failed, expired}
use mash_backend.RequestQueue.Rows.{or_null}
use mash_backend.SellerVerification.Types.{
  review_pending, review_resubmission, DocumentType, government_id, bir_certificate,
  business_certificate, ByType, at, assign, Review, Application, UpdateSellerDocuments,
  RequestResubmission,
}
use mash_backend.SellerVerification.Database.{Wanted}
use mash_backend.SellerVerification.Documents.{
  is_open, replaced, reset, with_documents, resubmitted, sent_back, marked, returned,
}

abbrev pub document_of : Application → DocumentType → Option String
document_of r t = at t r.payload.documents

abbrev pub review_of : Application → DocumentType → Option Review
review_of r t = at t r.payload.document_review_status

abbrev pub is_there : Option String → Bool
is_there none = false
is_there (some _) = true

-- The types that the body has a key for.
abbrev pub keys_of : UpdateSellerDocuments → ByType Bool
keys_of dto = record {
  of_government_id = is_there dto.new_documents.of_government_id;
  of_bir_certificate = is_there dto.new_documents.of_bir_certificate;
  of_business_certificate = is_there dto.new_documents.of_business_certificate;
}

-- A review that is yet to be made.
abbrev pub to_be_made : Review
to_be_made = record {
  review_status = review_pending;
  reviewed_at = none;
  reviewed_by = none;
  notes = none;
  issues = none;
}

-- No text is given, or an empty one.
abbrev pub NotGiven : Option String → Type 0
NotGiven o = (o ≡ none) ⊎ (o ≡ some "")

-- A document with a new URL waits for its review, and any other is as it was.
abbrev pub Sent : UpdateSellerDocuments → Application → Application → DocumentType → Type 0
Sent dto r r' t =
    ((url : String) × (at t dto.new_documents ≡ some url)
      × (url ≢ "")
      × (document_of r' t ≡ some url)
      × (review_of r' t ≡ some to_be_made))
    ⊎ (NotGiven (at t dto.new_documents)
        × (document_of r' t ≡ document_of r t)
        × (review_of r' t ≡ review_of r t))

replaced-reset :
    (new old : Option String) (v : Option Review)
    → ((url : String) × (new ≡ some url)
        × (url ≢ "")
        × (replaced new old ≡ some url)
        × (reset new v ≡ some to_be_made))
      ⊎ (NotGiven new × (replaced new old ≡ old) × (reset new v ≡ v))
replaced-reset none old v = inr (inl refl, refl, refl)
replaced-reset (some url) old v = elim (Bool-cases (url === "")) [
  | inl e ↦ inr (inr (ap some ((===_iff url "").0 e)), rw (e, replaced) refl, rw (e, reset) refl)
  | inr e ↦ inl (
    url,
    refl,
    (λ h. ground (arith, e, (===_iff url "").1 h)),
    rw (e, replaced) refl,
    rw (e, reset) refl,
  )
]

pub resubmitted-Sent :
    (dto : UpdateSellerDocuments) (now : ℕ) (r : Application) (t : DocumentType)
    → Sent dto r (resubmitted dto now r) t
unfolding resubmitted with_documents
resubmitted-Sent dto now r government_id =
    replaced-reset dto.new_documents.of_government_id (document_of r government_id)
      (review_of r government_id)
resubmitted-Sent dto now r bir_certificate =
    replaced-reset dto.new_documents.of_bir_certificate (document_of r bir_certificate)
      (review_of r bir_certificate)
resubmitted-Sent dto now r business_certificate =
    replaced-reset dto.new_documents.of_business_certificate (document_of r business_certificate)
      (review_of r business_certificate)

abbrev pub same_type : DocumentType → DocumentType → Bool
same_type government_id government_id = true
same_type bir_certificate bir_certificate = true
same_type business_certificate business_certificate = true
same_type _ _ = false

-- The type is one of those.
abbrev pub named : DocumentType → List DocumentType → Bool
named t [] = false
named t (u ∷ us) = same_type u t || named t us

-- The review of a type after some types were sent back.
abbrev expected :
    RequestResubmission
    → String
    → ℕ
    → List DocumentType
    → ByType (Option Review)
    → DocumentType
    → Option Review
expected dto by now ts d t = if named t ts then some (sent_back dto by now t) else at t d

at-assign :
    {A : Type 0} (u t : DocumentType) (f : DocumentType → A) (d : ByType A)
    → at t (assign u (f u) d) ≡ (if same_type u t then f t else at t d)
at-assign government_id government_id f d = refl
at-assign government_id bir_certificate f d = refl
at-assign government_id business_certificate f d = refl
at-assign bir_certificate government_id f d = refl
at-assign bir_certificate bir_certificate f d = refl
at-assign bir_certificate business_certificate f d = refl
at-assign business_certificate government_id f d = refl
at-assign business_certificate bir_certificate f d = refl
at-assign business_certificate business_certificate f d = refl

marked-expected :
    (dto : RequestResubmission) (by : String) (now : ℕ) (ts : List DocumentType)
    (d : ByType (Option Review)) (t : DocumentType)
    → at t (marked dto by now ts d) ≡ expected dto by now ts d t
unfolding marked
marked-expected dto by now [] d t = refl
marked-expected dto by now (u ∷ us) d t =
    marked-expected dto by now us (assign u (some (sent_back dto by now u)) d) t
    ∙ rw (at-assign u t (λ v. some (sent_back dto by now v)) d) (twice (same_type u t) (named t us))
  where
    twice :
        (a b : Bool)
        → (if b
            then some (sent_back dto by now t)
            else (if a then some (sent_back dto by now t) else at t d))
          ≡ (if a || b then some (sent_back dto by now t) else at t d)
    twice true true = refl
    twice true false = refl
    twice false true = refl
    twice false false = refl

-- The review says that the document is to be sent again, by whom and when, and with what words: those for
-- its type, or the reason for all where there are none.
pub record Asked (dto : RequestResubmission) (by : String) (now : ℕ) (t : DocumentType) (v : Review)
    : Type 0 where
  pub to_send_again : v.review_status ≡ review_resubmission
  pub when_asked : v.reviewed_at ≡ some now
  pub who_asked : v.reviewed_by ≡ some by
  pub words :
      ((i : String) × (at t dto.instructions ≡ some i) × (i ≢ "") × (v.notes ≡ some i))
      ⊎ (NotGiven (at t dto.instructions) × (v.notes ≡ some dto.reason))
  pub no_issues : v.issues ≡ none

sent_back-Asked :
    (dto : RequestResubmission) (by : String) (now : ℕ) (t : DocumentType)
    → Asked dto by now t (sent_back dto by now t)
sent_back-Asked dto by now t = record {
  to_send_again = refl;
  when_asked = refl;
  who_asked = refl;
  words = said (at t dto.instructions);
  no_issues = refl;
}
  where
    said :
        (o : Option String)
        → let text : Option String = some (elim (or_null o) [ none ↦ dto.reason | some i ↦ i ]) in
          ((i : String) × (o ≡ some i) × (i ≢ "") × (text ≡ some i))
          ⊎ (NotGiven o × (text ≡ some dto.reason))
    said none = inr (inl refl, refl)
    said (some i) = elim (Bool-cases (i === "")) [
      | inl e ↦ inr (inr (ap some ((===_iff i "").0 e)), rw e refl)
      | inr e ↦ inl (i, refl, (λ h. ground (arith, e, (===_iff i "").1 h)), rw e refl)
    ]

-- Of the types named the review asks for the document again, and the others keep theirs.
abbrev pub AskedFor :
    RequestResubmission → String → ℕ → Application → Application → DocumentType → Type 0
AskedFor dto by now r r' t =
    ((named t dto.documents_to_resubmit ≡ true)
      × ((v : Review) × (review_of r' t ≡ some v) × Asked dto by now t v))
    ⊎ ((named t dto.documents_to_resubmit ≡ false) × (review_of r' t ≡ review_of r t))

pub returned-AskedFor :
    (dto : RequestResubmission) (by : String) (now : ℕ) (r : Application) (t : DocumentType)
    → AskedFor dto by now r (returned dto by now r) t
unfolding returned
returned-AskedFor dto by now r t =
    let ts = dto.documents_to_resubmit in
    let reviews = marked-expected dto by now ts r.payload.document_review_status t in
    elim (Bool-cases (named t ts)) [
      | inl e ↦ inl (e, (sent_back dto by now t, reviews ∙ rw e refl, sent_back-Asked dto by now t))
      | inr e ↦ inr (e, reviews ∙ rw e refl)
    ]

pub is_open-cases : (x : RequestStatus) → is_open x ≡ true → (x ≡ pending) ⊎ (x ≡ processing)
is_open-cases pending h = inl refl
is_open-cases processing h = inr refl
is_open-cases completed h = absurd cc
is_open-cases failed h = absurd cc
is_open-cases expired h = absurd cc

open-is_open : (x : RequestStatus) → (x ≡ pending) ⊎ (x ≡ processing) → is_open x ≡ true
open-is_open x (inl e) = ap is_open e
open-is_open x (inr e) = ap is_open e

-- The request is an application of the user that is `PENDING` or `PROCESSING`.
pub record Open (user : String) (r : Application) : Type 0 where
  pub owner : r.user_id ≡ some user
  pub kind : r.endpoint ≡ seller_endpoint
  pub undecided : (r.status ≡ pending) ⊎ (r.status ≡ processing)

pub Open-Wanted : (user : String) (r : Application) → Open user r → Wanted user is_open r
Open-Wanted user r o = record {
  whose = o.owner;
  what = o.kind;
  which = open-is_open r.status o.undecided;
}

-- ===== src/SellerVerification/Flagged.antt =====
-- Once documents are to be sent again, the application says so until it is decided
-- (seller-verification.service.ts).
use mathlib.Core.Path.{subst}
use mash_backend.Prelude.{
  ℕ, ◌≡◌, refl, ap, sym, ◌∙◌, ◌⊎◌, inl, inr, String, Bool, true, false, Option, some, List, [], ◌∷◌,
  ◌===◌, ===_iff, string_eq, Bool-cases, Option-cases,
}
use mash_backend.RequestQueue.Types.{RequestStatus, pending, processing, completed, failed, expired}
use mash_backend.RequestQueue.Database.{seller_endpoint}
use mash_backend.SellerVerification.Types.{
  resubmission_required, DocumentType, Application, Applicant, UpdateSellerDocuments,
  ReviewDocument, RequestResubmission,
}
use mash_backend.SellerVerification.Database.{ApplicationStore}
use mash_backend.SellerVerification.Documents.{
  is_open, with_documents, resubmitted, reviewed, returned, find_application, update_documents,
  review_document, request_resubmission,
}
use mash_backend.SellerVerification.Status.{determine_application_status}
use mash_backend.SellerVerification.Effects.{Rewritten, update-Rewritten}

pub data Call : Type 0 where
  sending : String → UpdateSellerDocuments → Call
  reviewing : String → DocumentType → ReviewDocument → String → Call
  returning : String → RequestResubmission → String → Call

abbrev pub is_decided : RequestStatus → Bool
is_decided completed = true
is_decided failed = true
is_decided _ = false

-- Documents were asked for again, and there is no decision.
pub record Flagged (r : Application) : Type 0 where
  pub flag : r.payload.is_resubmission_required ≡ true
  pub undecided : is_decided r.status ≡ false

resubmitted-Flagged :
    (dto : UpdateSellerDocuments) (now : ℕ) (r : Application)
    → Flagged r
    → Flagged (resubmitted dto now r)
unfolding resubmitted with_documents
resubmitted-Flagged dto now r h = record { flag = h.flag; undecided = refl }

reviewed-Flagged :
    (t : DocumentType) (dto : ReviewDocument) (by : String) (now : ℕ) (r : Application)
    → Flagged r
    → Flagged (reviewed t dto by now r)
unfolding reviewed
reviewed-Flagged t dto by now r h = record { flag = h.flag; undecided = h.undecided }

returned-Flagged :
    (dto : RequestResubmission) (by : String) (now : ℕ) (r : Application)
    → Flagged (returned dto by now r)
unfolding returned
returned-Flagged dto by now r = record { flag = refl; undecided = refl }

Flagged-determine_application_status :
    (r : Application) (u : Option Applicant)
    → Flagged r
    → determine_application_status r.status r.payload u ≡ resubmission_required
unfolding determine_application_status
Flagged-determine_application_status r u h = go r.status h.undecided
  where
    go :
        (status : RequestStatus)
        → is_decided status ≡ false
        → determine_application_status status r.payload u ≡ resubmission_required
    go pending e = rw h.flag refl
    go processing e = rw h.flag refl
    go expired e = rw h.flag refl
    go completed e = absurd cc
    go failed e = absurd cc

module _ (s : ApplicationStore) where
  open s use {Db, latest, update_request, latest-some}

  unfoldable pub step : Db → Call × ℕ → Db
  unfolding update_documents review_document request_resubmission
  step db (sending user dto, now) = (update_documents s db user dto now).0
  step db (reviewing id t dto by, now) = (review_document s db id t dto by now).0
  step db (returning id dto by, now) = (request_resubmission s db id dto by now).0

  unfoldable pub run : Db → List (Call × ℕ) → Db
  unfolding step
  run db [] = db
  run db (c ∷ cs) = run (step db c) cs

  abbrev pub FlaggedAt : Db → String → Type 0
  FlaggedAt db j = (r : Application) × (find_application s db j ≡ some r) × Flagged r

  -- A call changes nothing, or one application in a way that keeps a flag.
  abbrev pub Keeps : Db → Db → Type 0
  Keeps db db' =
      (db' ≡ db)
      ⊎ ((id : String) × (r : Application) × (r' : Application) × (find_application s db id
            ≡ some r)
          × Rewritten s db db' id r'
          × (Flagged r → Flagged r'))

  step-Keeps : (db : Db) (c : Call × ℕ) → Keeps db (step db c)
  unfolding step update_documents review_document request_resubmission
  step-Keeps db (sending user dto, now) = elim (Option-cases (latest db user is_open)) [
    | inl e ↦ inl (rw (e, step, update_documents) refl)
    | inr ((id, r), e) ↦
        let here = (latest-some db user is_open id r e).0 in
        inr (
          id,
          r,
          resubmitted dto now r,
          here,
          rw (e, step, update_documents) (update-Rewritten s db id (resubmitted dto now) here),
          resubmitted-Flagged dto now r,
        )
  ]
  step-Keeps db (reviewing id t dto by, now) = elim (Option-cases (find_application s db id)) [
    | inl e ↦ inl (rw (e, step, review_document) refl)
    | inr (r, e) ↦ elim (Bool-cases (r.endpoint === seller_endpoint)) [
      | inr f ↦ inl (rw (e, f, step, review_document) refl)
      | inl f ↦ inr (
        id,
        r,
        reviewed t dto by now r,
        e,
        rw (e, f, step, review_document) (update-Rewritten s db id (reviewed t dto by now) e),
        reviewed-Flagged t dto by now r,
      )
    ]
  ]
  step-Keeps db (returning id dto by, now) = elim (Option-cases (find_application s db id)) [
    | inl e ↦ inl (rw (e, step, request_resubmission) refl)
    | inr (r, e) ↦ inr (
      id,
      r,
      returned dto by now r,
      e,
      rw (e, step, request_resubmission) (update-Rewritten s db id (returned dto by now) e),
      (λ _. returned-Flagged dto by now r),
    )
  ]

  step-FlaggedAt : (db : Db) (c : Call × ℕ) (j : String) → FlaggedAt db j → FlaggedAt (step db c) j
  step-FlaggedAt db c j (q, at_j, h) = elim (step-Keeps db c) [
    | inl same ↦ (q, ap (λ d. find_application s d j) same ∙ at_j, h)
    | inr (id, r, r', at_id, rows, keep) ↦ elim (Bool-cases (id === j)) [
      | inr e ↦ (q, rows j ∙ rw e at_j, h)
      | inl e ↦
          let it : q ≡ r =
            unwrap (sym at_j ∙ ap (find_application s db) (sym ((===_iff id j).0 e)) ∙ at_id) in
          (r', rows j ∙ rw e refl, keep (subst Flagged it h))
    ]
  ]
    where
      unwrap : {a b : Application} → some a ≡ some b → a ≡ b
      unwrap h = cc

  run-FlaggedAt :
      (cs : List (Call × ℕ)) (db : Db) (j : String) → FlaggedAt db j → FlaggedAt (run db cs) j
  unfolding run
  run-FlaggedAt [] db j h = h
  run-FlaggedAt (c ∷ cs) db j h = run-FlaggedAt cs (step db c) j (step-FlaggedAt db c j h)

  -- Whatever documents are sent, reviewed or sent back afterwards, in whatever order, an application whose
  -- documents were sent back and that is not decided has the status `RESUBMISSION_REQUIRED`.
  pub stays_resubmission_required :
      (cs : List (Call × ℕ)) (db : Db) (j : String) (r : Application) (u : Option Applicant)
      → find_application s db j ≡ some r
      → Flagged r
      → (r' : Application) × (find_application s (run db cs) j ≡ some r')
        × (determine_application_status r'.status r'.payload u ≡ resubmission_required)
  stays_resubmission_required cs db j r u here h =
      let (r', there, h') = run-FlaggedAt cs db j (r, here, h) in
      (r', there, Flagged-determine_application_status r' u h')

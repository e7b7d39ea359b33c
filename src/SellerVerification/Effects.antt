-- ===== src/SellerVerification/Effects.antt =====
-- What the calls of seller-verification.service.ts do to each document of each application.
use mash_backend.Prelude.{
  ℕ, ◌≡◌, ◌≤◌, refl, ap, ◌∙◌, ◌⊎◌, inl, inr, String, true, none, some, ◌===◌, if◌then◌else◌,
  string_eq, Option-cases,
}
use mash_backend.Prelude.Tables.{mapped}
use mash_backend.RequestQueue.Types.{pending, not_found, err, ok}
use mash_backend.SellerVerification.Types.{
  DocumentType, Application, UpdateSellerDocuments, RequestResubmission,
}
use mash_backend.SellerVerification.Database.{ApplicationStore}
use mash_backend.SellerVerification.Documents.{
  is_open, resubmitted, returned, find_application, update_documents, request_resubmission,
}
use mash_backend.SellerVerification.Reviews.{
  keys_of, Sent, AskedFor, Open, resubmitted-Sent, returned-AskedFor, is_open-cases, Open-Wanted,
}

module _ (s : ApplicationStore) where
  open s use {Db, update_request, latest, contents-update_request, latest-some, latest-none}

  pub application-update_request :
      (db : Db) (id j : String) (f : Application → Application)
      → find_application s (update_request db id f) j
        ≡ (if id === j then mapped f (find_application s db id) else find_application s db j)
  application-update_request db id j f = ap (λ t. t.requests j) (contents-update_request db id f)

  -- The applications after a call of which `row` is the new row.
  abbrev pub Rewritten : Db → Db → String → Application → Type 0
  Rewritten db db' id row =
      (j : String)
      → find_application s db' j ≡ (if id === j then some row else find_application s db j)

  pub update-Rewritten :
      (db : Db) (id : String) (f : Application → Application) {r : Application}
      → find_application s db id ≡ some r
      → Rewritten db (update_request db id f) id (f r)
  update-Rewritten db id f here j = application-update_request db id j f ∙ rw here refl

  -- The user's latest application that is open.
  pub record Latest (db : Db) (user id : String) (r : Application) : Type 0 where
    pub here : find_application s db id ≡ some r
    pub wanted : Open user r
    pub last :
        (j : String) (q : Application)
        → find_application s db j ≡ some q
        → Open user q
        → q.queued_at ≤ r.queued_at

  -- Either the user has an open application. Then the latest of them is `PENDING` after new documents:
  -- those sent with a URL replace the old ones and wait for their review, the others keep theirs, and
  -- no other application changes. The answer names the keys that were sent. Or the call throws and changes nothing.
  pub update_documents_effect :
      (db : Db) (user : String) (dto : UpdateSellerDocuments) (now : ℕ)
      → let x = update_documents s db user dto now in
        ((id : String) × (r : Application) × (r' : Application) × Latest db user id r
          × (x.1 ≡ ok (id, keys_of dto))
          × Rewritten db x.0 id r'
          × (r'.status ≡ pending)
          × ((t : DocumentType) → Sent dto r r' t))
        ⊎ (((j : String) (q : Application) → find_application s db j ≡ some q → Open user q → ⊥)
            × (x ≡ (db, err not_found)))
  unfolding update_documents resubmitted
  update_documents_effect db user dto now = elim (Option-cases (latest db user is_open)) [
    | inl e ↦ inr (
      (λ j q at_j o. latest-none db user is_open e j q at_j (Open-Wanted user q o)),
      rw (e, update_documents) refl,
    )
    | inr ((id, r), e) ↦
        let (here, wanted, last) = latest-some db user is_open id r e in
        inl (
          id,
          r,
          resubmitted dto now r,
          record {
            here = here;
            wanted = record {
              owner = wanted.whose;
              kind = wanted.what;
              undecided = is_open-cases r.status wanted.which;
            };
            last = λ j q at_j o. last j q at_j (Open-Wanted user q o);
          },
          rw (e, update_documents) refl,
          rw (e, update_documents) (update-Rewritten db id (resubmitted dto now) here),
          refl,
          resubmitted-Sent dto now r,
        )
  ]

  -- Whatever its endpoint and its status, an application that is there is `PENDING` after a request to send
  -- documents again, and is marked as such: for the types named the review says that the document is to
  -- be sent again, by whom, when and why, the others keep theirs, the documents stay, and no other application changes. Where there is none, the call throws and changes
  -- nothing.
  pub request_resubmission_effect :
      (db : Db) (id : String) (dto : RequestResubmission) (by : String) (now : ℕ)
      → let x = request_resubmission s db id dto by now in
        ((r : Application) × (r' : Application) × (find_application s db id ≡ some r)
          × (x.1 ≡ ok tt)
          × Rewritten db x.0 id r'
          × (r'.status ≡ pending)
          × (r'.payload.documents ≡ r.payload.documents)
          × (r'.payload.is_resubmission_required ≡ true)
          × ((t : DocumentType) → AskedFor dto by now r r' t))
        ⊎ ((find_application s db id ≡ none) × (x ≡ (db, err not_found)))
  unfolding request_resubmission returned
  request_resubmission_effect db id dto by now = elim (Option-cases (find_application s db id)) [
    | inl e ↦ inr (e, rw (e, request_resubmission) refl)
    | inr (r, e) ↦ inl (
      r,
      returned dto by now r,
      e,
      rw (e, request_resubmission) refl,
      rw (e, request_resubmission) (update-Rewritten db id (returned dto by now) e),
      refl,
      refl,
      refl,
      returned-AskedFor dto by now r,
    )
  ]

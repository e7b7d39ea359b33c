-- ===== src/SellerVerification/Timeline/Reopened.antt =====
-- What the timeline says of an approved application whose documents are sent back
-- (seller-verification.service.ts).
use mathlib.Core.List.{Mem, mem-cons_self, mem-cons_of_mem, mem-append_right}
use mathlib.Core.List.Perm
use mash_backend.Prelude.{ℕ, ◌≡◌, refl, ◌∙◌, String, none, some, ===_refl}
use mash_backend.RequestQueue.Types.{completed, pending}
use mash_backend.SellerVerification.Types.{Application, RequestResubmission}
use mash_backend.SellerVerification.Database.{ApplicationStore}
use mash_backend.SellerVerification.Documents.{returned, find_application, request_resubmission}
use mash_backend.SellerVerification.Timeline.{
  application_submitted, documents_resubmitted, review_started, resubmission_requested,
  application_rejected, event, events, build_timeline, if_at,
}
use mash_backend.SellerVerification.Timeline.Order.{sort_events-Perm}
use mash_backend.SellerVerification.Effects.{update-Rewritten}

-- A decision that a row has the time of, and that is no approval by its status, is told as a rejection.
events-Mem :
    (r : Application) (t : ℕ)
    → r.status ≡ pending
    → r.completed_at ≡ some t
    → Mem (event application_rejected t r.headers.admin_notes) (events r)
unfolding events
events-Mem r t undecided done =
    let p = r.payload in
    rw (undecided, done)
      (mem-cons_of_mem (event application_submitted r.queued_at p.business_name) (
        mem-append_right (if_at documents_resubmitted p.last_resubmission_at none) (
          mem-append_right (if_at review_started r.processed_at none) (
            mem-append_right
              (if_at resubmission_requested p.resubmission_requested_at p.resubmission_reason)
              mem-cons_self))))

module _ (s : ApplicationStore) where
  open s use {Db}

  -- An approved application whose documents are sent back is `PENDING`, and its timeline tells of a
  -- rejection at the time of the approval, with the notes of the approval.
  pub request_resubmission-build_timeline :
      (db : Db) (id : String) (dto : RequestResubmission) (by : String) (now : ℕ) (r : Application)
      (t : ℕ)
      → find_application s db id ≡ some r
      → r.status ≡ completed
      → r.completed_at ≡ some t
      → (r' : Application) × (find_application s (request_resubmission s db id dto by now).0 id
          ≡ some r')
        × (r'.status ≡ pending)
        × Mem (event application_rejected t r.headers.admin_notes) (build_timeline r')
  unfolding request_resubmission returned build_timeline
  request_resubmission-build_timeline db id dto by now r t here approved done =
      let r' = returned dto by now r in
      (
        r',
        rw (here, request_resubmission)
            (update-Rewritten s db id (returned dto by now) here id ∙ rw (===_refl id) refl),
        refl,
        (Perm.mem_iff (sort_events-Perm (events r'))).1 (events-Mem r' t refl done),
      )

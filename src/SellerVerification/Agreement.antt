-- ===== src/SellerVerification/Agreement.antt =====
-- The two answers about the state of a seller's application agree, and its timeline is in order
-- (seller-verification.service.ts).
use mathlib.Core.List.{Perm}
use mash_backend.SellerVerification.Timeline.Order.{InOrder}
use mash_backend.Prelude.{ℕ, ◌≡◌, ◌≤◌, ◌⊎◌, String, none, some, List, ◌≢◌}
use mash_backend.SellerVerification.Types.{
  SellerApplicationStatus, application_approved, application_rejected, Application,
}
use mash_backend.SellerVerification.Database.{ApplicationStore}
use mash_backend.SellerVerification.Status.{
  StatusData, SellerStatus, approved, rejected, no_status, get_verification_status,
  check_my_seller_status,
}
use mash_backend.SellerVerification.Timeline.{TimelineEvent, events}

-- A decision in one answer is the same decision in the other, and is all the progress there is.
abbrev pub SameDecision : SellerStatus → SellerApplicationStatus → ℕ → Type 0
SameDecision m a n =
    ((m ≡ approved) × (a ≡ application_approved) × (n ≡ 100))
    ⊎ ((m ≡ rejected) × (a ≡ application_rejected) × (n ≡ 100))
    ⊎ ((m ≢ approved)
        × (m ≢ rejected)
        × (a ≢ application_approved)
        × (a ≢ application_rejected)
        × (n ≤ 60))

module _ (s : ApplicationStore) where
  open s use {Db, latest}

  -- What the two answers say of one user: nothing, or the same application, with the same decision on it, and
  -- the full progress exactly after a decision. The timeline has the events of the application, none
  -- left out or added, the earliest first.
  abbrev pub Agree : Db → String → Type 0
  Agree db user =
      let m = check_my_seller_status s db user in
      ((get_verification_status s db user ≡ none)
        × (m.request_id ≡ none)
        × (m.seller_status ≡ no_status))
      ⊎ ((r : Application) × (d : StatusData) × (es : List TimelineEvent) × (get_verification_status
              s db user
            ≡ some (d, es))
          × (m.request_id ≡ some d.request_id)
          × (m.submitted_at ≡ some d.submitted_at)
          × SameDecision m.seller_status d.application_status d.progress_percentage
          × Perm es (events r)
          × InOrder es)

-- ===== src/SellerVerification/Timeline.antt =====
-- The timeline of an application (seller-verification.service.ts, `buildTimeline`).
use mash_backend.Prelude.{
  ℕ, ◌≤◌, String, Bool, true, false, Option, none, some, List, [], ◌∷◌, ◌++◌, leb, if◌then◌else◌,
}
use mash_backend.RequestQueue.Types.{RequestStatus, completed}
use mash_backend.SellerVerification.Types.{Application}
pub mod Order
pub mod Reopened

pub data EventType : Type 0 where
  application_submitted documents_resubmitted review_started resubmission_requested
        application_approved application_rejected :
      EventType

-- The event with the one text of its metadata; the description follows from the type.
pub record TimelineEvent : Type 0 where
  pub event_type : EventType
  pub timestamp : ℕ
  pub metadata : Option String

abbrev pub event : EventType → ℕ → Option String → TimelineEvent
event e t m = record { event_type = e; timestamp = t; metadata = m }

-- One event where there is a time, none where there is not.
abbrev pub if_at : EventType → Option ℕ → Option String → List TimelineEvent
if_at e none m = []
if_at e (some t) m = event e t m ∷ []

abbrev pub decision_event : RequestStatus → EventType
decision_event completed = application_approved
decision_event _ = application_rejected

-- The events in the order in which the code pushes them.
unfoldable pub events : Application → List TimelineEvent
events r =
    let p = r.payload in
    event application_submitted r.queued_at p.business_name
    ∷ (if_at documents_resubmitted p.last_resubmission_at none
        ++ (if_at review_started r.processed_at none
            ++ (if_at resubmission_requested p.resubmission_requested_at p.resubmission_reason
                ++ if_at (decision_event r.status) r.completed_at r.headers.admin_notes)))

-- `sort` by the timestamps, which is stable.
unfoldable pub insert_event : TimelineEvent → List TimelineEvent → List TimelineEvent
insert_event e [] = e ∷ []
insert_event e (f ∷ fs) =
    let rest = insert_event e fs in if leb e.timestamp f.timestamp then e ∷ f ∷ fs else f ∷ rest

unfoldable pub sort_events : List TimelineEvent → List TimelineEvent
unfolding insert_event
sort_events [] = []
sort_events (e ∷ es) = insert_event e (sort_events es)

unfoldable pub build_timeline : Application → List TimelineEvent
unfolding events sort_events
build_timeline r = sort_events (events r)

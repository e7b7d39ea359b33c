-- ===== src/SellerVerification/Timeline/Order.antt =====
-- The order of the timeline of an application (seller-verification.service.ts, `buildTimeline`).
use mathlib.Core.List.{Perm}
use mathlib.Core.List.Perm
use mash_backend.Prelude.{ℕ, ◌≤◌, inl, inr, List, [], ◌∷◌, arith, leb, Bool-cases, All}
use mash_backend.SellerVerification.Timeline.{TimelineEvent, insert_event, sort_events}

-- Each event is no later than those after it.
abbrev pub InOrder : List TimelineEvent → Type 0
InOrder [] = Unit
InOrder (e ∷ es) = All (λ f. e.timestamp ≤ f.timestamp) es × InOrder es

insert_event-Perm :
    (e : TimelineEvent) (es : List TimelineEvent) → Perm (insert_event e es) (e ∷ es)
unfolding insert_event
insert_event-Perm e [] = Perm.refl (e ∷ [])
insert_event-Perm e (f ∷ fs) = elim (Bool-cases (leb e.timestamp f.timestamp)) [
  | inl h ↦ rw (h, insert_event) (Perm.refl (e ∷ f ∷ fs))
  | inr h ↦
      rw (h, insert_event) (Perm.trans (Perm.cons f (insert_event-Perm e fs)) (Perm.swap e f fs))
]

pub sort_events-Perm : (es : List TimelineEvent) → Perm (sort_events es) es
unfolding sort_events
sort_events-Perm [] = Perm.refl []
sort_events-Perm (e ∷ es) =
    Perm.trans (insert_event-Perm e (sort_events es)) (Perm.cons e (sort_events-Perm es))

All-trans :
    (m n : ℕ) (es : List TimelineEvent)
    → m ≤ n
    → All (λ f. n ≤ f.timestamp) es
    → All (λ f. m ≤ f.timestamp) es
All-trans m n [] h all = tt
All-trans m n (e ∷ es) h (first, all) = (omega (arith, h, first), All-trans m n es h all)

insert_event-All :
    (m : ℕ) (e : TimelineEvent) (es : List TimelineEvent)
    → m ≤ e.timestamp
    → All (λ f. m ≤ f.timestamp) es
    → All (λ f. m ≤ f.timestamp) (insert_event e es)
unfolding insert_event
insert_event-All m e [] h all = (h, tt)
insert_event-All m e (f ∷ fs) h (first, all) = elim (Bool-cases (leb e.timestamp f.timestamp)) [
  | inl k ↦ rw (k, insert_event) (h, (first, all))
  | inr k ↦ rw (k, insert_event) (first, insert_event-All m e fs h all)
]

insert_event-InOrder :
    (e : TimelineEvent) (es : List TimelineEvent) → InOrder es → InOrder (insert_event e es)
unfolding insert_event
insert_event-InOrder e [] h = (tt, tt)
insert_event-InOrder e (f ∷ fs) (all, h) = elim (Bool-cases (leb e.timestamp f.timestamp)) [
  | inl k ↦
      let le : e.timestamp ≤ f.timestamp = ground (arith, k) in
      rw (k, insert_event) ((le, All-trans e.timestamp f.timestamp fs le all), (all, h))
  | inr k ↦
      let le : f.timestamp ≤ e.timestamp = ground (arith, k) in
      rw (k, insert_event) (insert_event-All f.timestamp e fs le all, insert_event-InOrder e fs h)
]

pub sort_events-InOrder : (es : List TimelineEvent) → InOrder (sort_events es)
unfolding sort_events
sort_events-InOrder [] = tt
sort_events-InOrder (e ∷ es) = insert_event-InOrder e (sort_events es) (sort_events-InOrder es)

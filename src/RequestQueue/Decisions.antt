-- ===== src/RequestQueue/Decisions.antt =====
-- What the approval of a request does, and that a decision is final (request-queue.service.ts).
use mash_backend.Prelude.{
  ℕ, ◌≡◌, ◌≢◌, refl, ap, sym, ◌∙◌, ◌⊎◌, inl, inr, String, Bool, true, false, Option, none, some,
  arith, ◌===◌, ===_iff, ===_refl, if◌then◌else◌, string_eq, Bool-cases, Option-cases,
}
use mash_backend.Prelude.Tables.{mapped}
use mash_backend.RequestQueue.Types.{
  pending, RequestedRole, not_given, no_role, role, Request, User, Error, not_found, bad_request,
  invalid_value, Result, ok, err,
}
use mash_backend.RequestQueue.Database.{RequestStore}
use mash_backend.RequestQueue.Rows.{is_pending, start, complete, fail, requested}
use mash_backend.RequestQueue.Requests.{
  find_request, find_user, user_of, give_role, approve_pending, approve_role_request,
}
use mash_backend.RequestQueue.Approved.{
  promoted, asked, approved_row, failed_row, RequestedRole-cases, is_pending-pending,
}

module _ (s : RequestStore) where
  open s use {
    Db, contents, update_request, update_user, contents-update_request, contents-update_user,
  }

  -- The request waits for a decision, and its user is there.
  pub record Approvable (db : Db) (id user_id : String) (r : Request) (u : User) : Type 0 where
    pub here : find_request s db id ≡ some r
    pub undecided : r.status ≡ pending
    pub whose : r.user_id ≡ some user_id
    pub there : find_user s db user_id ≡ some u

  pub request-update_request :
      (db : Db) (id j : String) (f : Request → Request)
      → find_request s (update_request db id f) j
        ≡ (if id === j then mapped f (find_request s db id) else find_request s db j)
  request-update_request db id j f = ap (λ t. t.requests j) (contents-update_request db id f)

  pub user-update_request :
      (db : Db) (id j : String) (f : Request → Request)
      → find_user s (update_request db id f) j ≡ find_user s db j
  user-update_request db id j f = ap (λ t. t.users j) (contents-update_request db id f)

  request-give_role :
      (db : Db) (user_id : String) (x : RequestedRole) (j : String)
      → find_request s (give_role s db user_id x).0 j ≡ find_request s db j
  unfolding give_role
  request-give_role db user_id not_given j = refl
  request-give_role db user_id no_role j = refl
  request-give_role db user_id (role x) j =
      ap (λ t. t.requests j) (contents-update_user db user_id _)

  user-give_role :
      (db : Db) (user_id : String) (x : RequestedRole) (j : String) {u : User}
      → find_user s db user_id ≡ some u
      → find_user s (give_role s db user_id x).0 j
        ≡ (if user_id === j then some (promoted x u) else find_user s db j)
  unfolding give_role
  user-give_role db user_id not_given j {u} h = ground (arith, h, ===_iff user_id j)
  user-give_role db user_id no_role j {u} h = ground (arith, h, ===_iff user_id j)
  user-give_role db user_id (role x) j {u} h =
      ap (λ t. t.users j) (contents-update_user db user_id _) ∙ rw h refl

  give_role_done :
      (db : Db) (user_id : String) (x : RequestedRole)
      → x ≢ no_role
      → (give_role s db user_id x).1 ≡ true
  unfolding give_role
  give_role_done db user_id not_given h = refl
  give_role_done db user_id no_role h = absurd (h refl)
  give_role_done db user_id (role x) h = refl

  -- The tables after a decision about a request of which `row` is the new row.
  abbrev pub Decided : Db → Db → String → Request → Type 0
  Decided db db' id row =
      (j : String) → find_request s db' j ≡ (if id === j then some row else find_request s db j)

  updated-Decided :
      (db db' : Db) (id : String) (f g : Request → Request) {r : Request}
      → find_request s db id ≡ some r
      → ((j : String) → find_request s db' j ≡ find_request s (update_request db id f) j)
      → Decided db (update_request db' id g) id (g (f r))
  updated-Decided db db' id f g {r} here same j =
      request-update_request db' id j g
      ∙ rw
          (
            same id,
            same j,
            request-update_request db id id f,
            request-update_request db id j f,
            ===_refl id,
            here,
          )
          (twice (id === j))
    where
      twice :
          (b : Bool)
          → (if b then some (g (f r)) else (if b then some (f r) else find_request s db j))
            ≡ (if b then some (g (f r)) else find_request s db j)
      twice true = refl
      twice false = refl

  module _ (db : Db) (id by : String) (notes : Option String) (now : ℕ) where
    abbrev pub approved : Db × Result (Unit {0})
    approved = approve_role_request s db id by notes now

    -- What an approval of that request does: either the user gets the role, or the role is none.
    abbrev pub Settled : String → Request → User → Type 0
    Settled user_id r u =
        ((asked r ≢ no_role)
          × (approved.1 ≡ ok tt)
          × Decided db approved.0 id (approved_row by notes now r)
          × ((j : String)
              → find_user s approved.0 j
                ≡ (if user_id === j then some (promoted (asked r) u) else find_user s db j)))
        ⊎ ((asked r ≡ no_role)
            × (approved.1 ≡ err invalid_value)
            × Decided db approved.0 id (failed_row now r)
            × ((j : String) → find_user s approved.0 j ≡ find_user s db j))

    approved-pending :
        (user_id : String) (r : Request) (u : User)
        → Approvable db id user_id r u
        → approved ≡ approve_pending s db id r user_id by notes now
    unfolding approve_role_request
    approved-pending user_id r u a =
        let owner : user_of s db r.user_id ≡ some (user_id, u) =
          rw (a.whose, user_of, a.there) refl in
        rw (a.here, a.undecided, owner, approve_role_request) refl

    granted :
        (user_id : String) (r : Request)
        → requested r ≢ no_role
        → approve_pending s db id r user_id by notes now ≡ (
          update_request
              (give_role s (update_request db id (start now)) user_id (requested r)).0
              id
              (complete by notes now),
          ok tt,
        )
    unfolding approve_pending
    granted user_id r h =
        rw
          (
            give_role_done (update_request db id (start now)) user_id (requested r) h,
            approve_pending,
          )
          refl

    failing :
        (user_id : String) (r : Request)
        → requested r ≡ no_role
        → approve_pending s db id r user_id by notes now
          ≡ (update_request (update_request db id (start now)) id (fail now), err invalid_value)
    unfolding approve_pending give_role
    failing user_id r h = rw (h, approve_pending) refl

    Approvable-Settled :
        (user_id : String) (r : Request) (u : User)
        → Approvable db id user_id r u
        → Settled user_id r u
    unfolding complete fail start
    Approvable-Settled user_id r u a = elim (RequestedRole-cases (requested r)) [
      | inr fine ↦
          let started = update_request db id (start now) in
          let given = (give_role s started user_id (requested r)).0 in
          rw (approved-pending user_id r u a ∙ granted user_id r fine) (
            inl (
              fine,
              refl,
              updated-Decided db given id (start now) (complete by notes now) a.here
                  (request-give_role started user_id (requested r)),
              (λ j.
                  user-update_request given id j (complete by notes now)
                  ∙ user-give_role started user_id (requested r) j
                      (user-update_request db id user_id (start now) ∙ a.there)
                  ∙ rw (user-update_request db id j (start now)) refl),
            ))
      | inl none_such ↦
          let started = update_request db id (start now) in
          rw (approved-pending user_id r u a ∙ failing user_id r none_such) (
            inr (
              none_such,
              refl,
              updated-Decided db started id (start now) (fail now) a.here (λ j. refl),
              (λ j.
                  user-update_request started id j (fail now)
                  ∙ user-update_request db id j (start now)),
            ))
    ]

    Approvable-cases :
        ((user_id : String) × (r : Request) × (u : User) × Approvable db id user_id r u)
        ⊎ ((e : Error) × (approved ≡ (db, err e)))
    unfolding approve_role_request
    Approvable-cases = elim (Option-cases (find_request s db id)) [
      | inl e ↦ inr (not_found, rw (e, approve_role_request) refl)
      | inr (r, e) ↦ elim (Bool-cases (is_pending r.status)) [
        | inr f ↦ inr (bad_request, rw (e, f, approve_role_request) refl)
        | inl f ↦ elim (Option-cases r.user_id) [
          | inl g ↦ inr (not_found, nobody r e f (ap (user_of s db) g))
          | inr (user_id, g) ↦ elim (Option-cases (find_user s db user_id)) [
            | inl h ↦ inr (not_found, nobody r e f (ap (user_of s db) g ∙ rw (user_of, h) refl))
            | inr (u, h) ↦ inl (
              user_id,
              r,
              u,
              record { here = e; undecided = is_pending-pending r.status f; whose = g; there = h },
            )
          ]
        ]
      ]
    ]
      where
        nobody :
            (r : Request)
            → find_request s db id ≡ some r
            → is_pending r.status ≡ true
            → user_of s db r.user_id ≡ none
            → approved ≡ (db, err not_found)
        nobody r e f g = rw (e, f, g, approve_role_request) refl

    stale :
        {r : Request} (row : Request)
        → find_request s db id ≡ some r
        → is_pending r.status ≡ true
        → is_pending row.status ≡ false
        → Decided db approved.0 id row
        → approved.0 ≡ db
        → ⊥
    stale row here undecided decided rows same =
        let found : find_request s db id ≡ some row =
          ap (λ d. find_request s d id) (sym same) ∙ rows id ∙ rw (===_refl id) refl in
        ground (arith, here, undecided, decided, found)

    -- An approval of a request that waits changes something.
    unsettled :
        (user_id : String) (r : Request) (u : User)
        → Approvable db id user_id r u
        → approved.0 ≡ db
        → ⊥
    unfolding complete fail start
    unsettled user_id r u a same = elim (Approvable-Settled user_id r u a) [
      | inl (_, _, rows, _) ↦
          stale (approved_row by notes now r) a.here (ap is_pending a.undecided) refl rows same
      | inr (_, _, rows, _) ↦
          stale (failed_row now r) a.here (ap is_pending a.undecided) refl rows same
    ]

    -- Either the request waits for a decision and its user is there. Then the approval gives that user,
    -- and no other, the role that was asked for, if one was, and the request is `COMPLETED`; or the
    -- value asked for is no role, the call throws, the request is `FAILED`, and no user changes. No other
    -- request changes. Or the call throws and changes nothing.
    pub approve_role_request_effect :
        ((user_id : String) × (r : Request) × (u : User) × Approvable db id user_id r u
          × Settled user_id r u)
        ⊎ (((user_id : String) (r : Request) (u : User) → Approvable db id user_id r u → ⊥)
            × ((e : Error) × (approved ≡ (db, err e))))
    approve_role_request_effect = elim Approvable-cases [
      | inl (user_id, r, u, a) ↦ inl (user_id, r, u, a, Approvable-Settled user_id r u a)
      | inr (e, h) ↦ inr ((λ user_id r u a. unsettled user_id r u a (ap (λ x. x.0) h)), (e, h))
    ]

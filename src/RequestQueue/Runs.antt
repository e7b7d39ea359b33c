-- ===== src/RequestQueue/Runs.antt =====
-- What any sequence of applications and decisions keeps (request-queue.service.ts).
use mathlib.Core.Path.{subst}
use mash_backend.Prelude.{
  ℕ, ◌≡◌, refl, ap, sym, ◌∙◌, ◌⊎◌, inl, inr, String, true, false, Option, none, some, List, [], ◌∷◌,
  ◌===◌, if◌then◌else◌, string_eq, Bool-cases, Option-cases,
}
use mash_backend.Orders.Types.{UserRole}
use mash_backend.RequestQueue.Types.{RequestedRole, Request, User}
use mash_backend.RequestQueue.Database.{RequestStore, Waits}
use mash_backend.RequestQueue.Rows.{is_pending, is_user, reject, requested, new_application}
use mash_backend.RequestQueue.Requests.{
  find_request, find_user, approve_role_request, reject_role_request, create_role_change_request,
}
use mash_backend.RequestQueue.Approved.{approved_row, failed_row, promoted}
use mash_backend.RequestQueue.Decisions.{
  Decided, approve_role_request_effect, request-update_request, user-update_request,
}

pub data Call : Type 0 where
  -- Under the id that the database makes up.
  applying : String → String → String → Call
  approving rejecting : String → String → Option String → Call

module _ (s : RequestStore) where
  open s use {
    Db, contents, pending_application, create_request, update_request, contents-create_request,
    pending_application-none,
  }

  unfoldable pub step : Db → Call × ℕ → Db
  unfolding create_role_change_request approve_role_request reject_role_request
  step db (applying id user_id details, now) =
      (create_role_change_request s db id user_id details now).0
  step db (approving id by notes, now) = (approve_role_request s db id by notes now).0
  step db (rejecting id by notes, now) = (reject_role_request s db id by notes now).0

  unfoldable pub run : Db → List (Call × ℕ) → Db
  unfolding step
  run db [] = db
  run db (c ∷ cs) = run (step db c) cs

  -- The id of a new request is new.
  abbrev pub Fresh : Db → Call × ℕ → Type 0
  Fresh db (applying id _ _, _) = find_request s db id ≡ none
  Fresh db _ = Unit

  abbrev pub AllFresh : Db → List (Call × ℕ) → Type 0
  AllFresh db [] = Unit
  AllFresh db (c ∷ cs) = Fresh db c × AllFresh (step db c) cs

  -- One user gets the role, or no user changes.
  abbrev pub Users : Db → Db → RequestedRole → Type 0
  Users db db' x =
      ((j : String) → find_user s db' j ≡ find_user s db j)
      ⊎ ((user_id : String) × (u : User) × (find_user s db user_id ≡ some u)
          × ((j : String)
              → find_user s db' j
                ≡ (if user_id === j then some (promoted x u) else find_user s db j)))

  -- What one call can do: nothing, an application, or a decision.
  abbrev pub Applied : Db → Db → Call × ℕ → Type 0
  Applied db db' c =
      (id : String) × (user_id : String) × (old : UserRole) × (details : String) × (now : ℕ) × (c
        ≡ (applying id user_id details, now))
      × ((j : String) (r : Request) → find_request s db j ≡ some r → Waits user_id r → ⊥)
      × Decided s db db' id (new_application user_id old details now)
      × ((j : String) → find_user s db' j ≡ find_user s db j)

  abbrev pub Judged : Db → Db → Type 0
  Judged db db' =
      (id : String) × (r : Request) × (row : Request) × (find_request s db id ≡ some r)
      × (is_pending r.status ≡ true)
      × (is_pending row.status ≡ false)
      × (requested row ≡ requested r)
      × Decided s db db' id row
      × Users db db' (requested r)

  abbrev pub Effect : Db → Call × ℕ → Type 0
  Effect db c = (step db c ≡ db) ⊎ Applied db (step db c) c ⊎ Judged db (step db c)

  approving-Effect :
      (db : Db) (id by : String) (notes : Option String) (now : ℕ)
      → Effect db (approving id by notes, now)
  unfolding step
  approving-Effect db id by notes now = elim (approve_role_request_effect s db id by notes now) [
    | inr (_, (e, h)) ↦ inl (ap (λ x. x.0) h)
    | inl (user_id, r, u, a, done) ↦ elim done [
      | inl (_, _, rows, users) ↦ inr (
          inr (
            id,
            r,
            approved_row by notes now r,
            a.here,
            ap is_pending a.undecided,
            refl,
            refl,
            rows,
            inr (user_id, u, a.there, users),
          ))
      | inr (_, _, rows, users) ↦ inr (
          inr (
            id,
            r,
            failed_row now r,
            a.here,
            ap is_pending a.undecided,
            refl,
            refl,
            rows,
            inl users,
          ))
    ]
  ]

  rejecting-Effect :
      (db : Db) (id by : String) (notes : Option String) (now : ℕ)
      → Effect db (rejecting id by notes, now)
  unfolding step reject_role_request reject
  rejecting-Effect db id by notes now = elim (Option-cases (find_request s db id)) [
    | inl e ↦ inl (rw (e, step, reject_role_request) refl)
    | inr (r, e) ↦ elim (Bool-cases (is_pending r.status)) [
      | inr f ↦ inl (rw (e, f, step, reject_role_request) refl)
      | inl f ↦
          let same : step db (rejecting id by notes, now)
              ≡ update_request db id (reject by notes now) =
            rw (e, f, step, reject_role_request) refl in
          inr (
            inr (
              id,
              r,
              reject by notes now r,
              e,
              f,
              refl,
              refl,
              subst (λ d. Decided s db d id (reject by notes now r)) (sym same)
                  (λ j. request-update_request s db id j (reject by notes now) ∙ rw e refl),
              inl (λ j.
                  ap (λ d. find_user s d j) same
                  ∙ user-update_request s db id j (reject by notes now)),
            ))
    ]
  ]

  applying-Effect :
      (db : Db) (id user_id details : String) (now : ℕ)
      → Effect db (applying id user_id details, now)
  unfolding step create_role_change_request
  applying-Effect db id user_id details now = elim (Option-cases (find_user s db user_id)) [
    | inl e ↦ inl (rw (e, step, create_role_change_request) refl)
    | inr (u, e) ↦ elim (Bool-cases (is_user u.user_role)) [
      | inr f ↦ inl (rw (e, f, step, create_role_change_request) refl)
      | inl f ↦ elim (Option-cases (pending_application db user_id)) [
        | inr (_, g) ↦ inl (rw (e, f, g, step, create_role_change_request) refl)
        | inl g ↦
            let row = new_application user_id u.user_role details now in
            let same : step db (applying id user_id details, now) ≡ create_request db id row =
              rw (e, f, g, step, create_role_change_request) refl in
            inr (
              inl (
                id,
                user_id,
                u.user_role,
                details,
                now,
                refl,
                pending_application-none db user_id g,
                (λ j.
                    ap (λ d. find_request s d j) same
                    ∙ ap (λ t. t.requests j) (contents-create_request db id row)),
                (λ j.
                    ap (λ d. find_user s d j) same
                    ∙ ap (λ t. t.users j) (contents-create_request db id row)),
              ))
      ]
    ]
  ]

  pub step-Effect : (db : Db) (c : Call × ℕ) → Effect db c
  step-Effect db (applying id user_id details, now) = applying-Effect db id user_id details now
  step-Effect db (approving id by notes, now) = approving-Effect db id by notes now
  step-Effect db (rejecting id by notes, now) = rejecting-Effect db id by notes now

-- ===== src/RequestQueue/Roles.antt =====
-- Which roles applications can give (request-queue.service.ts).
use mash_backend.Prelude.{
  ℕ, ◌≡◌, refl, ap, sym, ◌∙◌, ◌⊎◌, inl, inr, String, some, List, [], ◌∷◌, ◌===◌, ===_iff, string_eq,
  Bool-cases,
}
use mash_backend.Orders.Types.{admin}
use mash_backend.RequestQueue.Types.{role, Request, User}
use mash_backend.RequestQueue.Database.{RequestStore}
use mash_backend.RequestQueue.Rows.{requested, new_application}
use mash_backend.RequestQueue.Requests.{find_request, find_user}
use mash_backend.RequestQueue.Approved.{promoted}
use mash_backend.RequestQueue.Runs.{Call, step, run, step-Effect}
use mash_backend.RequestQueue.Kept.{Decided-cases}

-- The role is the one of before, or ADMIN.
abbrev pub Risen : User → User → Type 0
Risen u v = (v.user_role ≡ u.user_role) ⊎ (v.user_role ≡ admin)

Risen-trans : (u v w : User) → Risen u v → Risen v w → Risen u w
Risen-trans u v w h (inr k) = inr k
Risen-trans u v w (inl h) (inl k) = inl (k ∙ h)
Risen-trans u v w (inr h) (inl k) = inr (k ∙ h)

unwrap : {A : Type 0} {a b : A} → some a ≡ some b → a ≡ b
unwrap h = cc

module _ (s : RequestStore) where
  open s use {Db}

  -- Every request asks for ADMIN, as those that `createRoleChangeRequest` makes do.
  abbrev pub AskAdmin : Db → Type 0
  AskAdmin db = (j : String) (r : Request) → find_request s db j ≡ some r → requested r ≡ role admin

  step-AskAdmin : (db : Db) (c : Call × ℕ) → AskAdmin db → AskAdmin (step s db c)
  unfolding new_application
  step-AskAdmin db c asks j r here = elim (step-Effect s db c) [
    | inl same ↦ asks j r (sym (ap (λ d. find_request s d j) same) ∙ here)
    | inr (inl (id, user_id, old, details, now, _, _, rows, _)) ↦
        elim (Decided-cases s db (step s db c) id (new_application user_id old details now) j
          rows) [
            | inl (_, new) ↦ sym (ap requested (unwrap (sym new ∙ here)))
            | inr (_, same) ↦ asks j r (sym same ∙ here)
          ]
    | inr (inr (id, old, row, was, _, _, asked, rows, _)) ↦
        elim (Decided-cases s db (step s db c) id row j rows) [
          | inl (_, new) ↦ sym (ap requested (unwrap (sym new ∙ here))) ∙ asked ∙ asks id old was
          | inr (_, same) ↦ asks j r (sym same ∙ here)
        ]
  ]

  step-Risen :
      (db : Db) (c : Call × ℕ) (j : String) (v : User)
      → AskAdmin db
      → find_user s (step s db c) j ≡ some v
      → (u : User) × (find_user s db j ≡ some u) × Risen u v
  step-Risen db c j v asks here = elim (step-Effect s db c) [
    | inl same ↦ (v, sym (ap (λ d. find_user s d j) same) ∙ here, inl refl)
    | inr (inl (_, _, _, _, _, _, _, _, users)) ↦ (v, sym (users j) ∙ here, inl refl)
    | inr (inr (id, old, _, was, _, _, _, _, inl users)) ↦ (v, sym (users j) ∙ here, inl refl)
    | inr (inr (id, old, _, was, _, _, _, _, inr (user_id, u, there, users))) ↦
        elim (Bool-cases (user_id === j)) [
          | inr e ↦ (v, sym (users j ∙ rw e refl) ∙ here, inl refl)
          | inl e ↦
              let it : promoted (role admin) u ≡ v =
                unwrap (sym (users j ∙ rw (e, asks id old was) refl) ∙ here) in
              (
                u,
                sym (ap (find_user s db) ((===_iff user_id j).0 e)) ∙ there,
                inr (sym (ap (λ x. x.user_role) it)),
              )
        ]
  ]

  -- Where every request asks for ADMIN, any sequence of applications for the role, approvals and rejections
  -- leaves each user with the role of before or with ADMIN, and every request still asks for ADMIN.
  pub run-Risen :
      (cs : List (Call × ℕ)) (db : Db)
      → AskAdmin db
      → AskAdmin (run s db cs)
        × ((j : String) (v : User)
            → find_user s (run s db cs) j ≡ some v
            → (u : User) × (find_user s db j ≡ some u) × Risen u v)
  unfolding run
  run-Risen [] db asks = (asks, (λ j v h. (v, h, inl refl)))
  run-Risen (c ∷ cs) db asks =
      let (still, rises) = run-Risen cs (step s db c) (step-AskAdmin db c asks) in
      (
        still,
        (λ j v h.
            let (w, there, late) = rises j v h in
            let (u, here, early) = step-Risen db c j w asks there in
            (u, here, Risen-trans u w v early late)),
      )

-- ===== src/RequestQueue/Kept.antt =====
-- Decisions are final, and applications give no more than one role (request-queue.service.ts).
use mathlib.Core.Path.{subst}
use mash_backend.Prelude.{
  ℕ, ◌≡◌, ◌≢◌, refl, ap, sym, ◌∙◌, ◌⊎◌, inl, inr, String, false, Option, none, some, List, [], ◌∷◌,
  arith, ◌===◌, ===_iff, string_eq, Bool-cases,
}
use mash_backend.Orders.Types.{UserRole}
use mash_backend.RequestQueue.Types.{Request}
use mash_backend.RequestQueue.Database.{RequestStore, Waits}
use mash_backend.RequestQueue.Rows.{is_pending, new_application}
use mash_backend.RequestQueue.Requests.{find_request}
use mash_backend.RequestQueue.Decisions.{Decided}
use mash_backend.RequestQueue.Runs.{Call, step, run, Fresh, AllFresh, step-Effect}

unwrap : {a b : Request} → some a ≡ some b → a ≡ b
unwrap h = cc

module _ (s : RequestStore) where
  open s use {Db}

  -- A row of the table after a decision or an application is the new one, or was there before.
  pub Decided-cases :
      (db db' : Db) (id : String) (row : Request) (j : String)
      → Decided s db db' id row
      → ((id ≡ j) × (find_request s db' j ≡ some row))
        ⊎ ((id ≢ j) × (find_request s db' j ≡ find_request s db j))
  Decided-cases db db' id row j rows = elim (Bool-cases (id === j)) [
    | inl e ↦ inl ((===_iff id j).0 e, rows j ∙ rw e refl)
    | inr e ↦ inr ((λ h. ground (arith, e, (===_iff id j).1 h)), rows j ∙ rw e refl)
  ]

  step-frozen :
      (db : Db) (c : Call × ℕ) (j : String) (r : Request)
      → Fresh s db c
      → find_request s db j ≡ some r
      → is_pending r.status ≡ false
      → find_request s (step s db c) j ≡ some r
  step-frozen db c j r fresh here decided = elim (step-Effect s db c) [
    | inl same ↦ ap (λ d. find_request s d j) same ∙ here
    | inr (inl (id, user_id, old, details, now, call, _, rows, _)) ↦
        elim (Decided-cases db (step s db c) id (new_application user_id old details now) j rows) [
          | inr (_, same) ↦ same ∙ here
          | inl (it, _) ↦
              let absent : find_request s db id ≡ none = subst (Fresh s db) call fresh in
              absurd (ground (arith, absent, ap (find_request s db) it, here))
        ]
    | inr (inr (id, q, row, was, undecided, _, _, rows, _)) ↦
        elim (Decided-cases db (step s db c) id row j rows) [
          | inr (_, same) ↦ same ∙ here
          | inl (it, _) ↦
              absurd (ground (arith, was, undecided, ap (find_request s db) it, here, decided))
        ]
  ]

  -- A request that is decided stays as it is, whatever applications for the role, approvals and rejections
  -- follow, where the ids of new requests are new. The handlers that set a status, delete a request or
  -- send documents back are not among these calls.
  pub run-frozen :
      (cs : List (Call × ℕ)) (db : Db) (j : String) (r : Request)
      → AllFresh s db cs
      → find_request s db j ≡ some r
      → is_pending r.status ≡ false
      → find_request s (run s db cs) j ≡ some r
  unfolding run
  run-frozen [] db j r fresh here decided = here
  run-frozen (c ∷ cs) db j r fresh here decided =
      run-frozen cs (step s db c) j r fresh.1 (step-frozen db c j r fresh.0 here decided) decided

  -- No user has two applications that wait.
  abbrev pub OnePending : Db → Type 0
  OnePending db =
      (u j k : String) (r q : Request)
      → find_request s db j ≡ some r
      → find_request s db k ≡ some q
      → Waits u r
      → Waits u q
      → j ≡ k

  step-OnePending : (db : Db) (c : Call × ℕ) → OnePending db → OnePending (step s db c)
  unfolding new_application
  step-OnePending db c one u j k r q at_j at_k waits_r waits_q = elim (step-Effect s db c) [
    | inl same ↦ one u j k r q (back same j at_j) (back same k at_k) waits_r waits_q
    | inr (inl (id, user_id, old, details, now, call, free, rows, _)) ↦
        let row = new_application user_id old details now in
        elim (Decided-cases db (step s db c) id row j rows) [
          | inl (it, new) ↦ elim (Decided-cases db (step s db c) id row k rows) [
            | inl (too, _) ↦ sym it ∙ too
            | inr (_, old_k) ↦ absurd (
                free k q (sym old_k ∙ at_k)
                  (subst (λ v. Waits v q) (owner new at_j waits_r) waits_q))
          ]
          | inr (_, old_j) ↦ elim (Decided-cases db (step s db c) id row k rows) [
            | inl (_, new) ↦ absurd (
                free j r (sym old_j ∙ at_j)
                  (subst (λ v. Waits v r) (owner new at_k waits_q) waits_r))
            | inr (_, old_k) ↦ one u j k r q (sym old_j ∙ at_j) (sym old_k ∙ at_k) waits_r waits_q
          ]
        ]
    | inr (inr (id, old, row, was, undecided, decided, _, rows, _)) ↦
        elim (Decided-cases db (step s db c) id row j rows) [
          | inl (_, new) ↦ absurd (settled decided new at_j waits_r)
          | inr (_, old_j) ↦ elim (Decided-cases db (step s db c) id row k rows) [
            | inl (_, new) ↦ absurd (settled decided new at_k waits_q)
            | inr (_, old_k) ↦ one u j k r q (sym old_j ∙ at_j) (sym old_k ∙ at_k) waits_r waits_q
          ]
        ]
  ]
    where
      back :
          step s db c ≡ db
          → (i : String) {x : Request} → find_request s (step s db c) i ≡ some x
          → find_request s db i ≡ some x
      back same i h = sym (ap (λ d. find_request s d i) same) ∙ h

      owner :
          {o : Option Request} {x : Request} {user_id : String} {old : UserRole} {details : String}
          {now : ℕ}
          → o ≡ some (new_application user_id old details now)
          → o ≡ some x
          → Waits u x
          → u ≡ user_id
      owner {o} {x} {user_id} {old} {details} {now} new at waits =
          let it : new_application user_id old details now ≡ x = unwrap (sym new ∙ at) in
          ground (arith, ap (λ y. y.user_id) it, waits.whose)

      settled :
          {o : Option Request} {row x : Request}
          → is_pending row.status ≡ false
          → o ≡ some row
          → o ≡ some x
          → Waits u x
          → ⊥
      settled {o} {row} {x} decided new at waits =
          ground (arith, new, at, decided, ap is_pending waits.undecided)

  -- Any sequence of applications for the role, approvals and rejections leaves every user with one
  -- application that waits at most, if it finds them so. The handlers that set a status, delete a
  -- request or send documents back are not among these calls.
  pub run-OnePending : (cs : List (Call × ℕ)) (db : Db) → OnePending db → OnePending (run s db cs)
  unfolding run
  run-OnePending [] db one = one
  run-OnePending (c ∷ cs) db one = run-OnePending cs (step s db c) (step-OnePending db c one)

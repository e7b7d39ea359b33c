-- ===== src/RequestQueue/Bulk.antt =====
-- The bulk calls (request-queue.service.ts, `bulkApproveRequests` and `bulkRejectRequests`).
use mash_backend.Prelude.{
  ℕ, ◌+◌, ◌≡◌, refl, ap, String, Bool, true, false, Option, List, [], ◌∷◌, map, arith, length,
}
use mash_backend.RequestQueue.Types.{Result}
use mash_backend.RequestQueue.Database.{RequestStore}
use mash_backend.RequestQueue.Rows.{Tally, counted, went_through}
use mash_backend.RequestQueue.Requests.{in_bulk, approve_role_request, bulk_approve_requests}
use mash_backend.RequestQueue.Runs.{Call, approving, step, run}

-- The ids that the answer lists.
abbrev pub ids_of : List (String × Bool) → List String
ids_of rs = map (λ r. r.0) rs

abbrev pub Adds : List String → Tally → Type 0
Adds ids t = (t.succeeded + t.failures ≡ length ids) × (ids_of t.results ≡ ids)

counted-Adds :
    (id : String) (b : Bool) (ids : List String) (t : Tally)
    → Adds ids t
    → Adds (id ∷ ids) (counted id b t)
counted-Adds id true ids t (n, rs) = (omega (arith, n), ap (λ l. id ∷ l) rs)
counted-Adds id false ids t (n, rs) = (omega (arith, n), ap (λ l. id ∷ l) rs)

module _ (s : RequestStore) where
  open s use {Db}

  in_bulk-Adds :
      (decide : Db → String → Db × Result (Unit {0})) (ids : List String) (db : Db)
      → Adds ids (in_bulk s decide db ids).1
  unfolding in_bulk
  in_bulk-Adds decide [] db = (refl, refl)
  in_bulk-Adds decide (id ∷ ids) db =
      counted-Adds id (went_through (decide db id).1) ids _
        (in_bulk-Adds decide ids (decide db id).0)

  module _ (by : String) (notes : Option String) (now : ℕ) where
    abbrev pub one : Db → String → Db × Result (Unit {0})
    one db id = approve_role_request s db id by notes now

    abbrev pub one_by_one : List String → List (Call × ℕ)
    one_by_one ids = map (λ id. (approving id by notes, now)) ids

    in_bulk-run :
        (ids : List String) (db : Db) → (in_bulk s one db ids).0 ≡ run s db (one_by_one ids)
    unfolding in_bulk run step
    in_bulk-run [] db = refl
    in_bulk-run (id ∷ ids) db = in_bulk-run ids (one db id).0

    -- A bulk approval leaves the database that the single approvals leave one after another, those that throw
    -- included. It answers for each id in its order, and those that went through and those that
    -- failed add up to the total.
    pub bulk_approve_requests-run :
        (ids : List String) (db : Db)
        → let (db', answer) = bulk_approve_requests s db ids by notes now in
          (db' ≡ run s db (one_by_one ids))
          × (answer.tally.succeeded + answer.tally.failures ≡ answer.total)
          × (ids_of answer.tally.results ≡ ids)
    unfolding bulk_approve_requests
    bulk_approve_requests-run ids db =
        let (n, rs) = in_bulk-Adds one ids db in (in_bulk-run ids db, n, rs)

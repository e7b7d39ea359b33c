-- ===== src/SellerVerification/Database.antt =====
-- The database as seller-verification.service.ts uses it through the Prisma client, which is not part of
-- the repository: its calls are fields. `contents` is what the tables hold, and the laws say what
-- the update does to it and what the query finds in it, as the client's documentation does.
use mash_backend.Prelude.{◌≡◌, ◌≤◌, String, Bool, true, Option, none, some}
use mash_backend.Prelude.Tables.{Table, changed}
use mash_backend.RequestQueue.Types.{RequestStatus}
use mash_backend.RequestQueue.Database.{seller_endpoint}
use mash_backend.SellerVerification.Types.{Application, Applicant}

pub record Contents : Type 0 where
  pub requests : Table Application
  pub users : Table Applicant

-- The request is an application of the user, of a status that passes the test.
pub record Wanted (user : String) (passes : RequestStatus → Bool) (r : Application) : Type 0 where
  pub whose : r.user_id ≡ some user
  pub what : r.endpoint ≡ seller_endpoint
  pub which : passes r.status ≡ true

pub record ApplicationStore : Type 1 where
  pub Db : Type 0
  pub contents : Db → Contents
  -- `findFirst` of the user's applications of such a status, by `queuedAt` from the latest on.
  pub latest : Db → String → (RequestStatus → Bool) → Option (String × Application)
  pub update_request : Db → String → (Application → Application) → Db
  pub contents-update_request :
      (db : Db) (id : String) (f : Application → Application)
      → let t = contents db in
        contents (update_request db id f) ≡ record t { requests = changed id f t.requests }
  pub latest-some :
      (db : Db) (user : String) (passes : RequestStatus → Bool) (id : String) (r : Application)
      → latest db user passes ≡ some (id, r)
      → ((contents db).requests id ≡ some r)
        × Wanted user passes r
        × ((j : String) (q : Application)
            → (contents db).requests j ≡ some q
            → Wanted user passes q
            → q.queued_at ≤ r.queued_at)
  pub latest-none :
      (db : Db) (user : String) (passes : RequestStatus → Bool)
      → latest db user passes ≡ none
      → (j : String) (q : Application) → (contents db).requests j ≡ some q
      → Wanted user passes q
      → ⊥

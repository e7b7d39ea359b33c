-- ===== src/RequestQueue/Database.antt =====
-- The database as request-queue.service.ts uses it through the Prisma client, which is not part of the
-- repository: its calls are fields. `contents` is what the tables hold, and the laws say what the
-- calls do to it and what the query finds in it, as the client's documentation does.
use mash_backend.Prelude.{◌≡◌, String, Option, none, some}
use mash_backend.Prelude.Tables.{Table, added, changed, dropped}
use mash_backend.RequestQueue.Types.{Request, User, pending}

abbrev pub seller_endpoint : String
seller_endpoint = "/admin/seller-applications"

pub record Contents : Type 0 where
  pub requests : Table Request
  pub users : Table User

-- The request is an application of the user that waits for its decision.
pub record Waits (user : String) (r : Request) : Type 0 where
  pub whose : r.user_id ≡ some user
  pub what : r.endpoint ≡ seller_endpoint
  pub undecided : r.status ≡ pending

pub record RequestStore : Type 1 where
  pub Db : Type 0
  pub contents : Db → Contents
  -- `findFirst` of the user's applications that are `PENDING`.
  pub pending_application : Db → String → Option (String × Request)
  -- Under ids that the database makes up.
  pub create_request : Db → String → Request → Db
  pub update_request : Db → String → (Request → Request) → Db
  pub delete_request : Db → String → Db
  pub update_user : Db → String → (User → User) → Db
  pub contents-create_request :
      (db : Db) (id : String) (r : Request)
      → let t = contents db in
        contents (create_request db id r) ≡ record t { requests = added id r t.requests }
  pub contents-update_request :
      (db : Db) (id : String) (f : Request → Request)
      → let t = contents db in
        contents (update_request db id f) ≡ record t { requests = changed id f t.requests }
  pub contents-delete_request :
      (db : Db) (id : String)
      → let t = contents db in
        contents (delete_request db id) ≡ record t { requests = dropped id t.requests }
  pub contents-update_user :
      (db : Db) (id : String) (f : User → User)
      → let t = contents db in
        contents (update_user db id f) ≡ record t { users = changed id f t.users }
  pub pending_application-none :
      (db : Db) (user : String)
      → pending_application db user ≡ none
      → (id : String) (r : Request) → (contents db).requests id ≡ some r
      → Waits user r
      → ⊥

-- ===== src/Gateway/Table.antt =====
-- A table of the database, as the services use it through the Prisma client. The client is not part of
-- the repository: its calls are fields, and what its documentation says of them are laws.
use mash_backend.Prelude.{◌≡◌, String, Option, none, some, List, if◌then◌else◌, ◌===◌, string_eq}

-- The row that `upsert` leaves at its key.
abbrev pub upserted : {R : Type 0} → (R → R) → R → Option R → R
upserted update create none = create
upserted update create (some r) = update r

-- A table with a unique key.
pub record Table (R : Type 0) : Type 1 where
  pub Db : Type 0
  pub find_unique : Db → String → Option R
  pub create : Db → String → R → Db
  -- `upsert db k update row`: the row at `k` is changed by `update`, or created as `row`.
  pub upsert : Db → String → (R → R) → R → Db
  pub find_many : Db → List R
  pub find_unique-create :
      (db : Db) (k j : String) (r : R)
      → find_unique db k ≡ none
      → find_unique (create db k r) j ≡ (if k === j then some r else find_unique db j)
  pub find_unique-upsert :
      (db : Db) (k j : String) (update : R → R) (r : R)
      → find_unique (upsert db k update r) j
        ≡ (if k === j then some (upserted update r (find_unique db k)) else find_unique db j)

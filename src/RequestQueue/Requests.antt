-- ===== src/RequestQueue/Requests.antt =====
-- The handlers of request-queue.service.ts that create, change and decide requests. A handler takes the
-- database and gives the one that it leaves, with its answer or what it throws. Ids that the
-- database makes up and the clock's values are arguments. The mails about a decision change nothing
-- here, and what they throw is caught.
use mash_backend.Prelude.{
  ℕ, String, Bool, true, false, not, Option, none, some, List, [], ◌∷◌, length, if◌then◌else◌,
  string_eq,
}
use mash_backend.RequestQueue.Types.{
  RequestStatus, RequestedRole, not_given, no_role, role, Request, User, not_found, bad_request,
  record_missing, invalid_value, Result, ok, err,
}
use mash_backend.RequestQueue.Database.{RequestStore}
use mash_backend.RequestQueue.Rows.{
  is_user, is_pending, RequestData, new_request, new_application, with_status, start, complete,
  fail, reject, requested, Tally, BulkResult, nothing_done, counted, went_through,
}

module _ (s : RequestStore) where
  open s use {
    Db, contents, pending_application, create_request, update_request, delete_request, update_user,
  }

  abbrev pub find_request : Db → String → Option Request
  find_request db id = (contents db).requests id

  abbrev pub find_user : Db → String → Option User
  find_user db id = (contents db).users id

  -- The user of a request, by `include: { user: true }`.
  abbrev pub user_of : Db → Option String → Option (String × User)
  user_of db none = none
  user_of db (some id) = elim (find_user db id) [ none ↦ none | some u ↦ some (id, u) ]

  -- A user who is not there breaks the foreign key.
  unfoldable pub enqueue : Db → String → RequestData → ℕ → Db × Result Request
  unfolding new_request
  enqueue db id d now =
      let row = new_request d now in
      let made : Db × Result Request = (create_request db id row, ok row) in
      elim d.user_id [
        | none ↦ made
        | some u ↦ elim (find_user db u) [ none ↦ (db, err record_missing) | some _ ↦ made ]
      ]

  unfoldable pub update_request_status :
      Db → String → RequestStatus → Option String → ℕ → Db × Result (Unit {0})
  unfolding with_status
  update_request_status db id status message now = elim (find_request db id) [
    | none ↦ (db, err record_missing)
    | some _ ↦ (update_request db id (with_status status message now), ok tt)
  ]

  unfoldable pub remove_request : Db → String → Db × Result (Unit {0})
  remove_request db id = elim (find_request db id) [
    | none ↦ (db, err record_missing)
    | some _ ↦ (delete_request db id, ok tt)
  ]

  unfoldable pub create_role_change_request :
      Db → String → String → String → ℕ → Db × Result (Unit {0})
  unfolding new_application
  create_role_change_request db id user_id details now = elim (find_user db user_id) [
    | none ↦ (db, err not_found)
    | some u ↦
        if not (is_user u.user_role)
        then (db, err bad_request)
        else elim (pending_application db user_id) [
          | some _ ↦ (db, err bad_request)
          | none ↦ (create_request db id (new_application user_id u.user_role details now), ok tt)
        ]
  ]

  -- `user.update` with the requested role: a missing value changes nothing, and one that is no role
  -- throws.
  unfoldable pub give_role : Db → String → RequestedRole → Db × Bool
  give_role db user_id not_given = (db, true)
  give_role db user_id no_role = (db, false)
  give_role db user_id (role x) = (update_user db user_id (λ u. record u { user_role = x }), true)

  -- The writes of `approveRoleRequest`.
  unfoldable pub approve_pending :
      Db → String → Request → String → String → Option String → ℕ → Db × Result (Unit {0})
  unfolding start complete fail give_role
  approve_pending db id r user_id by notes now =
      let (db', done) = give_role (update_request db id (start now)) user_id (requested r) in
      if done
      then (update_request db' id (complete by notes now), ok tt)
      else (update_request db' id (fail now), err invalid_value)

  unfoldable pub approve_role_request :
      Db → String → String → Option String → ℕ → Db × Result (Unit {0})
  unfolding approve_pending
  approve_role_request db id by notes now = elim (find_request db id) [
    | none ↦ (db, err not_found)
    | some r ↦
        if not (is_pending r.status) then (db, err bad_request) else elim (user_of db r.user_id) [
          | none ↦ (db, err not_found)
          | some (user_id, _) ↦ approve_pending db id r user_id by notes now
        ]
  ]

  unfoldable pub reject_role_request :
      Db → String → String → Option String → ℕ → Db × Result (Unit {0})
  unfolding reject
  reject_role_request db id by notes now = elim (find_request db id) [
    | none ↦ (db, err not_found)
    | some r ↦
        if not (is_pending r.status)
        then (db, err bad_request)
        else (update_request db id (reject by notes now), ok tt)
  ]

  -- The loop of the bulk calls, over the calls for single requests.
  unfoldable pub in_bulk : (Db → String → Db × Result (Unit {0})) → Db → List String → Db × Tally
  in_bulk decide db [] = (db, nothing_done)
  in_bulk decide db (id ∷ ids) =
      let (db', r) = decide db id in
      let (db'', b) = in_bulk decide db' ids in (db'', counted id (went_through r) b)

  unfoldable pub bulk_approve_requests :
      Db → List String → String → Option String → ℕ → Db × BulkResult
  unfolding in_bulk approve_role_request
  bulk_approve_requests db ids by notes now =
      let (db', tally) = in_bulk (λ db id. approve_role_request db id by notes now) db ids in
      (db', record { tally = tally; total = length ids })

  unfoldable pub bulk_reject_requests :
      Db → List String → String → Option String → ℕ → Db × BulkResult
  unfolding in_bulk reject_role_request
  bulk_reject_requests db ids by notes now =
      let (db', tally) = in_bulk (λ db id. reject_role_request db id by notes now) db ids in
      (db', record { tally = tally; total = length ids })

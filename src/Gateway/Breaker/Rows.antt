-- ===== src/Gateway/Breaker/Rows.antt =====
-- What each method of circuit-breaker.service.ts leaves in the row of each service.
use mash_backend.Prelude.{
  ℕ, ◌≡◌, refl, ap, sym, inl, inr, String, Bool, true, Option, none, some, arith, ◌===◌, ===_iff,
  if◌then◌else◌, string_eq, Bool-cases, Option-cases,
}
use mash_backend.Gateway.Table.{Table}
use mash_backend.Gateway.Breaker.{
  CircuitBreakerState, closed, opened, half_open, Row, initial, is_due, to_half_open, to_closed,
  on_success, on_failure, get_state, update_state, permit, can_execute, record_success,
  record_failure, reset,
}

abbrev pub or_initial : String → Option Row → Row
or_initial name none = initial name
or_initial name (some r) = r

-- What `canExecute` leaves in the row, and what it answers.
abbrev pub attempted : CircuitBreakerState → ℕ → Row → Row
attempted opened now r = if is_due r.next_retry_at now then to_half_open r else r
attempted _ now r = r

abbrev pub permitted : CircuitBreakerState → ℕ → Row → Bool
permitted opened now r = is_due r.next_retry_at now
permitted _ now r = true

module _ (t : Table Row) where
  open t use {Db, find_unique, create, upsert, find_unique-create, find_unique-upsert}

  -- The row of a service, which is the initial one until there is a row.
  abbrev pub view : Db → String → Row
  view db name = or_initial name (find_unique db name)

  get_state-row : (db : Db) (name : String) → (get_state t db name).1 ≡ view db name
  unfolding get_state
  get_state-row db name = ground arith

  find-get_state :
      (db : Db) (name k : String)
      → find_unique (get_state t db name).0 k
        ≡ (if name === k then some (view db name) else find_unique db k)
  unfolding get_state
  find-get_state db name k = elim (Option-cases (find_unique db name)) [
    | inl e ↦ ground (arith, find_unique-create db name k (initial name) e)
    | inr (r, e) ↦ ground (arith, ===_iff name k)
  ]

  -- `getState` changes no row: the one that it creates is the initial one.
  view-get_state : (db : Db) (name k : String) → view (get_state t db name).0 k ≡ view db k
  view-get_state db name k = elim (Bool-cases (name === k)) [
    | inl e ↦ rw (find-get_state db name k, e) (ap (λ n. view db n) ((===_iff name k).0 e))
    | inr e ↦ rw (find-get_state db name k, e)
  ]

  view-update_state :
      (db : Db) (name k : String) (f : Row → Row)
      → view (update_state t db name f) k ≡ (if name === k then f (view db name) else view db k)
  unfolding update_state
  view-update_state db name k f = ground (arith, find_unique-upsert db name k f (f (initial name)))

  -- An update by a method that has read its row first.
  view-write :
      (db : Db) (name k : String) (f : Row → Row)
      → view (update_state t (get_state t db name).0 name f) k
        ≡ (if name === k then f (view db name) else view db k)
  view-write db name k f = rw (
    view-update_state (get_state t db name).0 name k f,
    view-get_state db name name,
    view-get_state db name k,
  )

  pub view-record_success :
      (db : Db) (name k : String) (now : ℕ)
      → view (record_success t db name now) k ≡ (
          if name === k
          then on_success (view db name).state now (view db name) (view db name)
          else view db k)
  unfolding record_success
  view-record_success db name k now = rw (get_state-row db name) (view-write db name k _)

  pub view-record_failure :
      (db : Db) (name k : String) (now : ℕ)
      → view (record_failure t db name now) k ≡ (
          if name === k
          then on_failure (view db name).state now (view db name) (view db name)
          else view db k)
  unfolding record_failure
  view-record_failure db name k now = rw (get_state-row db name) (view-write db name k _)

  pub view-reset :
      (db : Db) (name k : String)
      → view (reset t db name) k ≡ (if name === k then to_closed (view db name) else view db k)
  unfolding reset
  view-reset db name k = view-update_state db name k to_closed

  -- The view when nothing was written, in the form of the other lemmas.
  view-kept :
      (db : Db) (name k : String)
      → view (get_state t db name).0 k ≡ (if name === k then view db name else view db k)
  view-kept db name k = elim (Bool-cases (name === k)) [
    | inl e ↦ rw (view-get_state db name k, e) (ap (λ n. view db n) (sym ((===_iff name k).0 e)))
    | inr e ↦ rw (view-get_state db name k, e)
  ]

  view-permit :
      (db : Db) (name k : String) (now : ℕ) (s : CircuitBreakerState)
      → (view (permit t s (get_state t db name).0 name (view db name) now).0 k
          ≡ (if name === k then attempted s now (view db name) else view db k))
        × ((permit t s (get_state t db name).0 name (view db name) now).1
            ≡ permitted s now (view db name))
  unfolding permit
  view-permit db name k now closed = (view-kept db name k, refl)
  view-permit db name k now half_open = (view-kept db name k, refl)
  view-permit db name k now opened = elim (Bool-cases (is_due (view db name).next_retry_at now)) [
    | inl e ↦ rw (e, permit) (view-write db name k to_half_open, refl)
    | inr e ↦ rw (e, permit) (view-kept db name k, refl)
  ]

  pub view-can_execute :
      (db : Db) (name k : String) (now : ℕ)
      → (view (can_execute t db name now).0 k
          ≡ (if name === k then attempted (view db name).state now (view db name) else view db k))
        × ((can_execute t db name now).1 ≡ permitted (view db name).state now (view db name))
  unfolding can_execute
  view-can_execute db name k now =
      rw (get_state-row db name) (view-permit db name k now (view db name).state)

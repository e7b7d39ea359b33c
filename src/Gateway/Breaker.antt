-- ===== src/Gateway/Breaker.antt =====
-- src/modules/gateway/services/circuit-breaker.service.ts, over the table of prisma/schema.prisma's
-- `CircuitBreakerState`. A method takes the database and the clock's value, in milliseconds, and
-- returns the new database; the readings of the clock within one call are one value.
use mash_backend.Prelude.{
  ℕ, ◌+◌, String, Bool, true, false, Option, none, some, List, leb, if◌then◌else◌, length, keep,
}
use mash_backend.Gateway.Table.{Table}
pub mod Rows
pub mod Phases
pub mod Trips

pub data CircuitBreakerState : Type 0 where
  closed opened half_open : CircuitBreakerState

pub record Row : Type 0 where
  pub service_name : String
  pub state : CircuitBreakerState
  pub failure_count : ℕ
  pub success_count : ℕ
  pub last_failure_at : Option ℕ
  pub last_success_at : Option ℕ
  pub next_retry_at : Option ℕ
  pub opened_at : Option ℕ

-- `defaultConfig`, but for `halfOpenRequests`, which no method reads.
abbrev pub failure_threshold : ℕ
failure_threshold = 5

abbrev pub success_threshold : ℕ
success_threshold = 3

abbrev pub timeout : ℕ
timeout = 60000

unfoldable pub initial : String → Row
initial name = record {
  service_name = name;
  state = closed;
  failure_count = 0;
  success_count = 0;
  last_failure_at = none;
  last_success_at = none;
  next_retry_at = none;
  opened_at = none;
}

-- The data that the transitions write.
unfoldable pub to_open : ℕ → Row → Row
to_open now r = record r {
  state = opened;
  opened_at = some now;
  next_retry_at = some (now + timeout);
}

unfoldable pub to_half_open : Row → Row
to_half_open r = record r { state = half_open; success_count = 0; failure_count = 0 }

unfoldable pub to_closed : Row → Row
to_closed r = record r {
  state = closed;
  failure_count = 0;
  success_count = 0;
  next_retry_at = none;
  opened_at = none;
}

abbrev pub is_due : Option ℕ → ℕ → Bool
is_due none now = false
is_due (some t) now = leb t now

-- What a success and a failure write to the stored row, by the row `r` that `getState` gave.
unfoldable pub on_success : CircuitBreakerState → ℕ → Row → Row → Row
unfolding to_closed
on_success half_open now r row =
    if leb success_threshold (r.success_count + 1)
    then to_closed row
    else record row { success_count = r.success_count + 1; last_success_at = some now }
on_success _ now r row = record row {
  failure_count = 0;
  success_count = r.success_count + 1;
  last_success_at = some now;
}

unfoldable pub on_failure : CircuitBreakerState → ℕ → Row → Row → Row
unfolding to_open
on_failure half_open now r row = to_open now row
on_failure _ now r row =
    if leb failure_threshold (r.failure_count + 1)
    then to_open now row
    else record row { failure_count = r.failure_count + 1; last_failure_at = some now }

abbrev pub is_state : CircuitBreakerState → CircuitBreakerState → Bool
is_state closed closed = true
is_state opened opened = true
is_state half_open half_open = true
is_state _ _ = false

pub record Statistics : Type 0 where
  pub total : ℕ
  pub closed_count : ℕ
  pub open_count : ℕ
  pub half_open_count : ℕ

abbrev pub count_state : CircuitBreakerState → List Row → ℕ
count_state s rows = length (keep (λ r. is_state s r.state) rows)

module _ (t : Table Row) where
  open t use {Db, find_unique, create, upsert, find_many}

  -- The row that is there, or the one that is created.
  found_or_created : Db → String → Option Row → Db × Row
  unfolding initial
  found_or_created db name none = (create db name (initial name), initial name)
  found_or_created db name (some r) = (db, r)

  unfoldable pub get_state : Db → String → Db × Row
  unfolding found_or_created
  get_state db name = found_or_created db name (find_unique db name)

  -- `updateState` with the data as the change that it makes to a row.
  unfoldable pub update_state : Db → String → (Row → Row) → Db
  unfolding initial
  update_state db name change = upsert db name change (change (initial name))

  -- The `switch` of `canExecute`.
  unfoldable pub permit : CircuitBreakerState → Db → String → Row → ℕ → Db × Bool
  unfolding update_state to_half_open
  permit closed db name r now = (db, true)
  permit opened db name r now =
      if is_due r.next_retry_at now then (update_state db name to_half_open, true) else (db, false)
  permit half_open db name r now = (db, true)

  unfoldable pub can_execute : Db → String → ℕ → Db × Bool
  unfolding get_state permit
  can_execute db name now = let (db', r) = get_state db name in permit r.state db' name r now

  unfoldable pub record_success : Db → String → ℕ → Db
  unfolding get_state on_success update_state
  record_success db name now =
      let (db', r) = get_state db name in update_state db' name (on_success r.state now r)

  unfoldable pub record_failure : Db → String → ℕ → Db
  unfolding get_state on_failure update_state
  record_failure db name now =
      let (db', r) = get_state db name in update_state db' name (on_failure r.state now r)

  unfoldable pub reset : Db → String → Db
  unfolding update_state to_closed
  reset db name = update_state db name to_closed

  -- `getStatistics`, its numbers.
  unfoldable pub get_statistics : Db → Statistics
  get_statistics db =
      let states = find_many db in
      record {
        total = length states;
        closed_count = count_state closed states;
        open_count = count_state opened states;
        half_open_count = count_state half_open states;
      }

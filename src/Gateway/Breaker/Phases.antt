-- ===== src/Gateway/Breaker/Phases.antt =====
-- The circuit breaker as an automaton of three phases, and the rows of circuit-breaker.service.ts
-- beside it.
use mash_backend.Prelude.{
  ℕ, ◌+◌, ◌<◌, ◌≡◌, refl, ap, ◌∙◌, inl, inr, String, Option, some, List, [], ◌∷◌, arith, leb, ◌===◌,
  ===_iff, if◌then◌else◌, string_eq, Bool-cases,
}
use mash_backend.Gateway.Table.{Table}
use mash_backend.Gateway.Breaker.{
  CircuitBreakerState, closed, opened, half_open, Row, is_due, to_open, to_half_open, to_closed,
  on_success, on_failure, can_execute, record_success, record_failure, reset, failure_threshold,
  success_threshold, timeout,
}
use mash_backend.Gateway.Breaker.Rows.{
  view, attempted, view-record_success, view-record_failure, view-reset, view-can_execute,
}

-- What a row is between two calls: a closed breaker has counted fewer failures than open it, a
-- half-open one fewer successes than close it, and an open one knows when to retry.
abbrev pub RowIn : CircuitBreakerState → Row → Type 0
RowIn closed r = r.failure_count < failure_threshold
RowIn opened r = (t : ℕ) × (r.next_retry_at ≡ some t)
RowIn half_open r = (r.success_count < success_threshold) × (r.failure_count ≡ 0)

abbrev pub IsValid : Row → Type 0
IsValid r = RowIn r.state r

pub data Phase : Type 0 where
  passing : ℕ → Phase  -- the failures in a row
  blocking : Option ℕ → ℕ → Phase  -- until when, and the failures counted
  testing : ℕ → Phase  -- the successes in a row

pub data Call : Type 0 where
  attempt success failure resets : Call

-- The automaton. No time stamps are kept but the one that ends the blocking.
unfoldable pub phase_step : ℕ → Call → Phase → Phase
phase_step now attempt (blocking until f) = if is_due until now then testing 0 else blocking until f
phase_step now attempt p = p
phase_step now success (passing f) = passing 0
phase_step now success (blocking until f) = blocking until 0
phase_step now success (testing s) = if leb 2 s then passing 0 else testing (s + 1)
phase_step now failure (passing f) =
    if leb 4 f then blocking (some (now + 60000)) f else passing (f + 1)
phase_step now failure (blocking until f) =
    if leb 4 f then blocking (some (now + 60000)) f else blocking until (f + 1)
phase_step now failure (testing s) = blocking (some (now + 60000)) 0
phase_step now resets p = passing 0

abbrev pub phase_in : CircuitBreakerState → Row → Phase
phase_in closed r = passing r.failure_count
phase_in opened r = blocking r.next_retry_at r.failure_count
phase_in half_open r = testing r.success_count

abbrev pub phase : Row → Phase
phase r = phase_in r.state r

-- The row after a call, and its state given apart.
abbrev row_step : ℕ → Call → CircuitBreakerState → Row → Row
row_step now attempt s r = attempted s now r
row_step now success s r = on_success s now r r
row_step now failure s r = on_failure s now r r
row_step now resets s r = to_closed r

-- A failure opens the breaker, with a time to retry at, or is counted.
failure-IsValid :
    (now : ℕ) (s : CircuitBreakerState) (r : Row)
    → r.state ≡ s
    → RowIn s r
    → IsValid (on_failure s now r r)
unfolding on_failure to_open
failure-IsValid now half_open r e v = (now + timeout, refl)
failure-IsValid now closed r e v = elim (Bool-cases (leb failure_threshold (r.failure_count + 1))) [
  | inl f ↦ rw (f, on_failure) (now + timeout, refl)
  | inr f ↦ rw (f, on_failure) (rw e (ground arith))
]
failure-IsValid now opened r e v = elim (Bool-cases (leb failure_threshold (r.failure_count + 1))) [
  | inl f ↦ rw (f, on_failure) (now + timeout, refl)
  | inr f ↦ rw (f, on_failure) (rw e v)
]

row_step-phase :
    (now : ℕ) (c : Call) (s : CircuitBreakerState) (r : Row)
    → r.state ≡ s
    → RowIn s r
    → (phase (row_step now c s r) ≡ phase_step now c (phase_in s r)) × IsValid (row_step now c s r)
unfolding phase_step on_success on_failure to_closed to_open to_half_open
row_step-phase now attempt closed r e v = ground arith
row_step-phase now attempt opened r e v = ground arith
row_step-phase now attempt half_open r e v = ground arith
row_step-phase now success closed r e v = ground arith
row_step-phase now success opened r e v = ground arith
row_step-phase now success half_open r e v = ground arith
row_step-phase now failure closed r e v = (ground arith, failure-IsValid now closed r e v)
row_step-phase now failure opened r e v = (ground arith, failure-IsValid now opened r e v)
row_step-phase now failure half_open r e v = ground arith
row_step-phase now resets closed r e v = ground arith
row_step-phase now resets opened r e v = ground arith
row_step-phase now resets half_open r e v = ground arith

-- The automaton of the service `k` sees the calls for `k` alone.
unfoldable pub phase_run : String → Phase → List (String × ℕ × Call) → Phase
phase_run k p [] = p
phase_run k p ((name, now, c) ∷ cs) = phase_run k (if name === k then phase_step now c p else p) cs

module _ (t : Table Row) where
  open t use {Db, find_unique}

  -- One call for one service.
  unfoldable pub call : Db → String → ℕ → Call → Db
  call db name now attempt = (can_execute t db name now).0
  call db name now success = record_success t db name now
  call db name now failure = record_failure t db name now
  call db name now resets = reset t db name

  unfoldable pub run : Db → List (String × ℕ × Call) → Db
  run db [] = db
  run db ((name, now, c) ∷ cs) = run (call db name now c) cs

  view-call :
      (db : Db) (name k : String) (now : ℕ) (c : Call)
      → view t (call db name now c) k ≡ (
          if name === k
          then row_step now c (view t db name).state (view t db name)
          else view t db k)
  unfolding call
  view-call db name k now attempt = (view-can_execute t db name k now).0
  view-call db name k now success = view-record_success t db name k now
  view-call db name k now failure = view-record_failure t db name k now
  view-call db name k now resets = view-reset t db name k

  -- Every service's row is valid.
  abbrev pub AllValid : Db → Type 0
  AllValid db = (k : String) → IsValid (view t db k)

  call-AllValid :
      (db : Db) (name : String) (now : ℕ) (c : Call) → AllValid db → AllValid (call db name now c)
  call-AllValid db name now c v k = elim (Bool-cases (name === k)) [
    | inl e ↦
        rw (view-call db name k now c, e)
          (row_step-phase now c (view t db name).state (view t db name) refl (v name)).1
    | inr e ↦ rw (view-call db name k now c, e) (v k)
  ]

  -- After any calls for any services every row is valid: a closed breaker has counted fewer than five
  -- failures, a half-open one fewer than three successes and no failure, and an open one has a time
  -- to retry at. It is enough that the rows were valid before.
  pub run-AllValid : (db : Db) (cs : List (String × ℕ × Call)) → AllValid db → AllValid (run db cs)
  unfolding run
  run-AllValid db [] v = v
  run-AllValid db ((name, now, c) ∷ cs) v =
      run-AllValid (call db name now c) cs (call-AllValid db name now c v)

  phase-call :
      (db : Db) (name k : String) (now : ℕ) (c : Call)
      → AllValid db
      → phase (view t (call db name now c) k)
        ≡ (if name === k then phase_step now c (phase (view t db k)) else phase (view t db k))
  phase-call db name k now c v = elim (Bool-cases (name === k)) [
    | inl e ↦
        rw (view-call db name k now c, e)
          ((row_step-phase now c (view t db name).state (view t db name) refl (v name)).0
            ∙ ap (λ n. phase_step now c (phase (view t db n))) ((===_iff name k).0 e))
    | inr e ↦ rw (view-call db name k now c, e)
  ]

  -- Whatever calls are made for whatever services, in any order and at any times, the row of each
  -- service is in the phase to which the automaton goes on that service's calls alone, provided that
  -- the rows were valid at the start.
  pub run-phase_run :
      (db : Db) (k : String) (cs : List (String × ℕ × Call))
      → AllValid db
      → phase (view t (run db cs) k) ≡ phase_run k (phase (view t db k)) cs
  unfolding run phase_run
  run-phase_run db k [] v = refl
  run-phase_run db k ((name, now, c) ∷ cs) v =
      run-phase_run (call db name now c) k cs (call-AllValid db name now c v)
      ∙ ap (λ p. phase_run k p cs) (phase-call db name k now c v)

-- ===== src/Gateway/Breaker/Trips.antt =====
-- When circuit-breaker.service.ts refuses a request, opens and closes again.
use mash_backend.Prelude.{
  ℕ, suc, ◌+◌, ◌<◌, ◌≤◌, ◌≡◌, refl, ap, ◌∙◌, ◌↔◌, inl, inr, String, true, false, Option, none, some,
  List, [], ◌∷◌, ◌++◌, arith, leb, ◌===◌, ===_refl, if◌then◌else◌, string_eq, Bool-cases,
}
use mash_backend.Gateway.Table.{Table}
use mash_backend.Gateway.Breaker.{CircuitBreakerState, closed, opened, half_open, Row, can_execute}
use mash_backend.Gateway.Breaker.Rows.{view, permitted, view-can_execute}
use mash_backend.Gateway.Breaker.Phases.{
  RowIn, IsValid, Phase, passing, blocking, Call, attempt, success, failure, phase_step, phase_in,
  phase, phase_run, AllValid, run, run-phase_run,
}

permitted_iff :
    (s : CircuitBreakerState) (now : ℕ) (r : Row)
    → RowIn s r
    → (permitted s now r ≡ false)
      ↔ ((s ≡ opened) × ((u : ℕ) × (r.next_retry_at ≡ some u) × (now < u)))
permitted_iff closed now r v = (λ h. cc, λ h. absurd (ground arith))
permitted_iff half_open now r v = (λ h. cc, λ h. absurd (ground arith))
permitted_iff opened now r (u, e) = (λ h. (refl, (u, e, ground arith)), λ h. ground arith)

-- An open breaker whose time has come permits a request.
Phase-permitted :
    {u f : ℕ} (s : CircuitBreakerState) (now : ℕ) (r : Row)
    → phase_in s r ≡ blocking (some u) f
    → leb u now ≡ true
    → permitted s now r ≡ true
Phase-permitted closed now r e due = refl
Phase-permitted half_open now r e due = refl
Phase-permitted {u} {f} opened now r e due = ground (arith, ap until_of e, due)
  where
    until_of : Phase → Option ℕ
    until_of (blocking until n) = until
    until_of _ = none

-- Calls for the service `k` that are all failures, between any calls for other services.
abbrev pub FailuresOnly : String → List (String × ℕ × Call) → Type 0
FailuresOnly k [] = Unit
FailuresOnly k ((name, now, c) ∷ cs) = (((name === k) ≡ true) → c ≡ failure) × FailuresOnly k cs

abbrev pub calls_for : String → List (String × ℕ × Call) → ℕ
calls_for k [] = 0
calls_for k ((name, now, c) ∷ cs) = if name === k then suc (calls_for k cs) else calls_for k cs

phase_run-failures :
    (k : String) (f : ℕ) (cs : List (String × ℕ × Call))
    → FailuresOnly k cs
    → f + calls_for k cs ≤ 4
    → phase_run k (passing f) cs ≡ passing (f + calls_for k cs)
unfolding phase_run phase_step
phase_run-failures k f [] only h = ground arith
phase_run-failures k f ((name, now, c) ∷ cs) only h = elim (Bool-cases (name === k)) [
  | inl e ↦
      let counted : f + suc (calls_for k cs) ≤ 4 = ground arith in
      let below : leb 4 f ≡ false = ground arith in
      rw (e, only.0 e, below)
        (phase_run-failures k (f + 1) cs only.1 (omega arith) ∙ ap passing (omega arith))
  | inr e ↦ rw e (phase_run-failures k f cs only.1 (ground arith))
]

phase_run-append :
    (k : String) (p : Phase) (cs ds : List (String × ℕ × Call))
    → phase_run k p (cs ++ ds) ≡ phase_run k (phase_run k p cs) ds
unfolding phase_run
phase_run-append k p [] ds = refl
phase_run-append k p ((name, now, c) ∷ cs) ds =
    phase_run-append k (if name === k then phase_step now c p else p) cs ds

module _ (t : Table Row) where
  open t use {Db}

  -- A request is refused exactly when the breaker is open and its time to retry lies ahead, for a
  -- valid row.
  pub can_execute-refuses :
      (db : Db) (name : String) (now : ℕ)
      → IsValid (view t db name)
      → ((can_execute t db name now).1 ≡ false) ↔ (
          ((view t db name).state ≡ opened)
          × ((u : ℕ) × ((view t db name).next_retry_at ≡ some u) × (now < u)))
  can_execute-refuses db name now v =
      rw ((view-can_execute t db name name now).1)
        (permitted_iff (view t db name).state now (view t db name) v)

  -- From a closed breaker with no failure counted: as long as the calls for its service are failures,
  -- four of them at most leave it closed with that count, and a failure after exactly four opens it
  -- for 60 seconds. Calls for other services may come between; all rows are valid at the start.
  pub failures_open :
      (db : Db) (k : String) (cs : List (String × ℕ × Call)) (now : ℕ)
      → AllValid t db
      → phase (view t db k) ≡ passing 0
      → FailuresOnly k cs
      → calls_for k cs ≤ 4
      → (phase (view t (run t db cs) k) ≡ passing (calls_for k cs))
        × (calls_for k cs ≡ 4
            → phase (view t (run t db (cs ++ (k, now, failure) ∷ [])) k)
              ≡ blocking (some (now + 60000)) 4)
  unfolding phase_run phase_step
  failures_open db k cs now v start only h =
      let four = phase_run-failures k 0 cs only (omega arith) in
      (
        run-phase_run t db k cs v ∙ ap (λ p. phase_run k p cs) start ∙ four ∙ ground arith,
        λ e.
            run-phase_run t db k (cs ++ (k, now, failure) ∷ []) v
            ∙ ap (λ p. phase_run k p (cs ++ (k, now, failure) ∷ [])) start
            ∙ phase_run-append k (passing 0) cs ((k, now, failure) ∷ [])
            ∙ rw (four, e, ===_refl k) refl,
      )

  -- Once the time to retry has come, an open breaker answers that a request may go through, and three successes then
  -- close it, while two successes and a failure block it for another 60 seconds, for valid rows.
  pub recovers :
      (db : Db) (k : String) (u f now s₁ s₂ s₃ : ℕ)
      → AllValid t db
      → phase (view t db k) ≡ blocking (some u) f
      → u ≤ now
      → ((can_execute t db k now).1 ≡ true)
        × (phase (
              view t
                (run t db
                  ((k, now, attempt) ∷ (k, s₁, success) ∷ (k, s₂, success) ∷ (k, s₃, success) ∷ []))
                k)
            ≡ passing 0)
        × (phase (
              view t
                (run t db
                  ((k, now, attempt) ∷ (k, s₁, success) ∷ (k, s₂, success) ∷ (k, s₃, failure) ∷ []))
                k)
            ≡ blocking (some (s₃ + 60000)) 0)
  unfolding phase_run phase_step
  recovers db k u f now s₁ s₂ s₃ v start h =
      let due : leb u now ≡ true = ground arith in
      (
        (view-can_execute t db k k now).1
            ∙ Phase-permitted (view t db k).state now (view t db k) start due,
        run-phase_run t db k _ v ∙ rw (start, ===_refl k, due) refl,
        run-phase_run t db k _ v ∙ rw (start, ===_refl k, due) refl,
      )

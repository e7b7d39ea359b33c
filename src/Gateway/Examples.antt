-- ===== src/Gateway/Examples.antt =====
-- The theorems about the gateway at concrete inputs.
use mathlib.Core.List.{Perm}
use mash_backend.Prelude.{
  ℕ, ◌≡◌, refl, inl, inr, String, true, false, none, some, List, [], ◌∷◌, arith, ◌===◌, string_eq,
  if◌then◌else◌, get, put, get-put, Map, Any, Bool-cases,
}
use mash_backend.Gateway.Types.{LoadBalancingStrategy, ServiceInstance}
use mash_backend.Gateway.Table.{Table, upserted}
use mash_backend.Gateway.Balancer.{
  found, LoadBalancer, new_instance, get_instances, get_next_instance, total_weight,
}
use mash_backend.Gateway.Balancer.Safety.{get_next_instance-IsHealthy}
use mash_backend.Gateway.Balancer.Turns.{calls, shares, weighted_round_robin-perm}
use mash_backend.Gateway.Balancer.Registry.{IsValid}
use mash_backend.Gateway.Breaker.{can_execute, Row, opened, initial}
use mash_backend.Gateway.Breaker.Rows.{view}
use mash_backend.Gateway.Breaker.Phases.{
  AllValid, passing, blocking, phase, phase_run, Call, attempt, success, failure, run, run-AllValid,
  run-phase_run,
}
use mash_backend.Gateway.Breaker.Trips.{failures_open, recovers}

abbrev alpha : ServiceInstance
alpha = record (new_instance "a" (some 2) 0) { active_connections = 4; response_time = 30 }

abbrev beta : ServiceInstance
beta = record (new_instance "b" none 0) { active_connections = 1; response_time = 50 }

abbrev gamma : ServiceInstance
gamma = record (new_instance "c" (some 1) 0) { healthy = false }

-- One service with two healthy instances, after one call.
abbrev two : LoadBalancer
two = record {
  round_robin_indexes = ("api", 1) ∷ [];
  service_instances = ("api", alpha ∷ gamma ∷ beta ∷ []) ∷ [];
}

get_next_instance-IsHealthy_example :
    Any (λ i. (i.healthy ≡ true) × (i.url ≡ "b")) (get_instances two "api")
unfolding get_next_instance get_instances get
get_next_instance-IsHealthy_example =
    get_next_instance-IsHealthy two "api" LoadBalancingStrategy.round_robin none {u = "b"} refl

weighted_round_robin-perm_example :
    Perm
      (calls 3 two "api" LoadBalancingStrategy.weighted_round_robin none)
      (found "a" ∷ found "a" ∷ found "b" ∷ [])
unfolding get_instances get shares total_weight
weighted_round_robin-perm_example = weighted_round_robin-perm two "api" none

abbrev idle : LoadBalancer
idle = record { round_robin_indexes = []; service_instances = [] }

idle-IsValid : IsValid idle
unfolding get_instances get
idle-IsValid name = tt

-- A table in memory.
memory_create :
    (db : Map String Row) (k j : String) (r : Row)
    → get k db ≡ none
    → get j (put k r db) ≡ (if k === j then some r else get j db)
memory_create db k j r h = get-put j k r db

memory_upsert :
    (db : Map String Row) (k j : String) (f : Row → Row) (r : Row)
    → get j (put k (upserted f r (get k db)) db)
      ≡ (if k === j then some (upserted f r (get k db)) else get j db)
memory_upsert db k j f r = get-put j k (upserted f r (get k db)) db

abbrev memory : Table Row
memory = record {
  Db = Map String Row;
  find_unique = λ db k. get k db;
  create = λ db k r. put k r db;
  upsert = λ db k f r. put k (upserted f r (get k db)) db;
  find_many = λ db. [];
  find_unique-create = memory_create;
  find_unique-upsert = memory_upsert;
}

empty-AllValid : AllValid memory []
unfolding get initial
empty-AllValid k = omega arith

abbrev four_failures : List (String × ℕ × Call)
four_failures =
    ("api", 1, failure)
    ∷ ("api", 2, failure)
    ∷ ("web", 3, success)
    ∷ ("api", 3, failure)
    ∷ ("api", 4, failure)
    ∷ []

run-AllValid_example : AllValid memory (run memory [] four_failures)
run-AllValid_example = run-AllValid memory [] four_failures empty-AllValid

run-phase_run_example :
    phase (view memory (run memory [] four_failures) "api")
    ≡ phase_run "api" (phase (view memory [] "api")) four_failures
run-phase_run_example = run-phase_run memory [] "api" four_failures empty-AllValid

failures_open_example :
    (phase (view memory (run memory [] four_failures) "api") ≡ passing 4)
    × (◌≡◌ {A = ℕ} 4 4
        → phase (
            view memory
              (run memory [] (
                ("api", 1, failure)
                ∷ ("api", 2, failure)
                ∷ ("web", 3, success)
                ∷ ("api", 3, failure)
                ∷ ("api", 4, failure)
                ∷ ("api", 9, failure)
                ∷ []))
              "api")
          ≡ blocking (some 60009) 4)
unfolding get initial
failures_open_example =
    failures_open memory [] "api" four_failures 9 empty-AllValid refl
      ((λ e. refl), ((λ e. refl), ((λ e. cc), ((λ e. refl), ((λ e. refl), tt))))) (omega arith)

-- A breaker that blocks until 100.
abbrev blocked : Map String Row
blocked =
    ("api", record (initial "api") { state = opened; next_retry_at = some 100; failure_count = 4 })
    ∷ []

blocked-AllValid : AllValid memory blocked
unfolding get initial
blocked-AllValid k = elim (Bool-cases ("api" === k)) [
  | inl e ↦ rw (e, get) (100, refl)
  | inr e ↦ rw (e, get) (omega arith)
]

recovers_example :
    ((can_execute memory blocked "api" 100).1 ≡ true)
    × (phase (
          view memory
            (run memory blocked (
              ("api", 100, attempt)
              ∷ ("api", 101, success)
              ∷ ("api", 102, success)
              ∷ ("api", 103, success)
              ∷ []))
            "api")
        ≡ passing 0)
    × (phase (
          view memory
            (run memory blocked (
              ("api", 100, attempt)
              ∷ ("api", 101, success)
              ∷ ("api", 102, success)
              ∷ ("api", 103, failure)
              ∷ []))
            "api")
        ≡ blocking (some 60103) 0)
unfolding get initial
recovers_example =
    recovers memory blocked "api" 100 4 100 101 102 103 blocked-AllValid refl (omega arith)

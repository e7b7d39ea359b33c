-- ===== src/Auth/Examples.antt =====
-- The theorems about violations and quotas at concrete inputs, on a Redis in memory.
use mash_backend.Prelude.{◌≤◌, ◌≡◌, refl, true, [], ◌∷◌, arith, get}
use mash_backend.RateLimit.Redis
use mash_backend.RateLimit.Memory.{memory as redis, memory-Up as redis-Up}
use mash_backend.Auth.Violations.{ViolationInfo, get_violations, get_backoff_time}
use mash_backend.Auth.Violations.History.{Recalled, record_all, record_all-Recalled}
use mash_backend.Prelude.{All, false}
use mash_backend.Auth.Quota.{get_next_midnight, get_seconds_until_midnight}
use mash_backend.Auth.Quota.Answers.{answers, passed, daily_quota_exact, late_requests_pass}
use mash_backend.Auth.Memory.{memory, memory-Up, january}

record_all-Recalled_example :
    let c =
      record_all
        (redis ViolationInfo)
        (redis-Up ViolationInfo)
        "ana"
        []
        (1000 ∷ 31000 ∷ 3000000 ∷ []) in
    Recalled (1000 ∷ 31000 ∷ 3000000 ∷ []) (get_violations (redis ViolationInfo) c "ana" 3000001)
    × (get_backoff_time (redis ViolationInfo) c "ana" 3000001 ≡ 300)
unfolding Redis.get get
record_all-Recalled_example =
    record_all-Recalled (redis ViolationInfo) (redis-Up ViolationInfo) "ana" [] 1000
      (31000 ∷ 3000000 ∷ []) 3000001 refl (omega arith, (omega arith, omega arith))

-- Three requests of a user who has two a day, and then three in the last second of the day.
daily_quota_exact_example :
    let bs = answers memory memory-Up january "ana" 2 [] (1000 ∷ 2000 ∷ 3000 ∷ []) in
    (bs ≡ true ∷ true ∷ false ∷ []) × (passed bs ≤ 2)
unfolding get get_seconds_until_midnight
daily_quota_exact_example =
    daily_quota_exact memory memory-Up january "ana" 2 [] 1000 (2000 ∷ 3000 ∷ []) "1970-01-01" refl
      (refl, omega arith, omega arith, (refl, omega arith, omega arith, refl))

late_requests_pass_example :
    All
      (λ b. b ≡ true)
      (answers memory memory-Up january "ana" 1 [] (86399100 ∷ 86399200 ∷ 86399300 ∷ []))
unfolding get get_next_midnight
late_requests_pass_example =
    late_requests_pass memory memory-Up january "ana" 1 (86399200 ∷ 86399300 ∷ []) [] 86399100
      "1970-01-01" (omega arith) refl
      (refl, omega arith, omega arith, (refl, omega arith, omega arith, (refl, omega arith)))

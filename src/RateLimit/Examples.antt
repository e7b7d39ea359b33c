-- ===== src/RateLimit/Examples.antt =====
-- The theorems about rate limiting at concrete inputs, on a Redis in memory.
use mash_backend.Prelude.{
  ℕ, ◌≡◌, ◌≤◌, refl, String, true, false, List, [], ◌∷◌, arith, get, put, All,
}
use mash_backend.RateLimit.Types.{RateLimitConfig}
use mash_backend.RateLimit.Redis
use mash_backend.RateLimit.SlidingWindow
use mash_backend.RateLimit.LeakyBucket
use mash_backend.Prelude.{Map, some, none, ◌<◌, ◌*◌, ◌+◌, string_eq}
use mash_backend.RateLimit.SlidingWindow.Counts.{within}
use mash_backend.RateLimit.SlidingWindow.Bound.{run, run_bound, check_limit_exact}
use mash_backend.RateLimit.FixedWindow.{Json, answers, answers-All}
use mash_backend.RateLimit.Memory.{memory, memory-Up, counters}

-- Two requests a second.
abbrev two_per_second : RateLimitConfig
two_per_second = record { limit = 2; window_ms = 1000 }

-- Five calls of one key and one of another: the third call of the key is refused.
abbrev calls : List (String × ℕ)
calls =
    ("ana", 100) ∷ ("ana", 200) ∷ ("bo", 300) ∷ ("ana", 400) ∷ ("ana", 1150) ∷ ("ana", 1190) ∷ []

abbrev last_three : List ℕ
last_three = 1150 ∷ 200 ∷ 100 ∷ []

run_bound_example : within 1000 1150 last_three ≤ 2
unfolding run SlidingWindow.check_limit SlidingWindow.current_log Redis.get Redis.set get put
run_bound_example =
    run_bound (memory (List ℕ)) (memory-Up (List ℕ)) two_per_second "ana" calls [] 1150
      (λ now. refl)
      (omega arith, (omega arith, (omega arith, (omega arith, (omega arith, (omega arith, tt))))))

check_limit_exact_example :
    (SlidingWindow.check_limit
      (memory (List ℕ))
      (run (memory (List ℕ)) (memory-Up (List ℕ)) two_per_second "ana" [] [] calls).0
      "ana"
      two_per_second
      1195).1.allowed
    ≡ false
unfolding run SlidingWindow.check_limit SlidingWindow.current_log Redis.get Redis.set get put within
check_limit_exact_example =
    check_limit_exact (memory (List ℕ)) (memory-Up (List ℕ)) two_per_second "ana" calls [] 1195
      (λ now. refl)
      (omega arith, (omega arith, (omega arith, (omega arith, (omega arith, (omega arith, tt))))))
      (omega arith)

answers-All_example :
    All
      (λ a. a ≡ true)
      (answers (memory Json) counters [] "ana" two_per_second (100 ∷ 101 ∷ 102 ∷ 103 ∷ []))
unfolding Redis.get get
answers-All_example =
    answers-All (memory Json) counters [] "ana" two_per_second (100 ∷ 101 ∷ 102 ∷ 103 ∷ [])
      (omega arith) (λ now t e. cc)

-- A full bucket of two that leaks two requests a second, and a call every 400 milliseconds.
abbrev full_bucket : LeakyBucket.BucketState
full_bucket = record { queue_size = 2; last_leak_ms = 100 }

abbrev full_store : Map String (LeakyBucket.BucketState × ℕ)
full_store = ("ratelimit:leakybucket:ana", (full_bucket, 2000100)) ∷ []

full_store-stored :
    (now : ℕ)
    → now < 100 + 1000 * 2 * 1000
    → Redis.get (memory LeakyBucket.BucketState) full_store (LeakyBucket.store_key "ana") now
      ≡ some full_bucket
unfolding Redis.get get
full_store-stored now h = ground (arith, h)

answers-Hasty_example :
    All
      (λ a. a ≡ false)
      (LeakyBucket.answers
        (memory LeakyBucket.BucketState)
        full_store
        "ana"
        two_per_second
        none
        (500 ∷ 900 ∷ 1300 ∷ []))
answers-Hasty_example =
    LeakyBucket.answers-Hasty (memory LeakyBucket.BucketState) (memory-Up LeakyBucket.BucketState)
      "ana" two_per_second none full_store 100 (500 ∷ 900 ∷ 1300 ∷ [])
      (full_bucket, omega arith, refl, full_store-stored)
      (
        omega arith,
        omega arith,
        omega arith,
        (omega arith, omega arith, omega arith, (omega arith, omega arith, omega arith, tt)),
      )

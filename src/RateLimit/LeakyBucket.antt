-- ===== src/RateLimit/LeakyBucket.antt =====
-- src/modules/gateway/rate-limiting/strategies/leaky-bucket.strategy.ts: a queue that leaks at a
-- constant rate. The rate is a fraction of requests per millisecond, where JavaScript has doubles. The
-- answer is modelled by whether the request is allowed and by the level of the bucket.
use Prim.Native.String.{◌++◌ as text_append}
use mash_backend.Prelude.{
  ℕ, zero, suc, ◌+◌, ◌-◌, ◌*◌, ◌/◌, ◌≤◌, ◌<◌, ◌≡◌, refl, ap, ◌∙◌, String, Bool, false, Option, none,
  some, List, [], ◌∷◌, arith, if◌then◌else◌, ===_refl, string_eq, ltb, All,
}
use native.Mathlib.Nat.{div-eq_of_lt, sub-zero}
use mash_backend.RateLimit.Types.{RateLimitConfig}
use mash_backend.RateLimit.Redis.{Client, Up, get, set, delete, get-set}

pub record BucketState : Type 0 where
  pub queue_size : ℕ
  pub last_leak_ms : ℕ

abbrev pub store_key : String → String
store_key k = text_append "ratelimit:leakybucket:" k

-- `(options.leakRate || limit / (windowMs / 1000)) / 1000`, as a numerator and a denominator. The
-- option is in requests per second.
abbrev pub leak_rate : Option ℕ → RateLimitConfig → ℕ × ℕ
leak_rate none cfg = (cfg.limit, cfg.window_ms)
leak_rate (some zero) cfg = (cfg.limit, cfg.window_ms)
leak_rate (some (suc r)) cfg = (suc r, 1000)

abbrev pub or_empty_bucket : Option BucketState → ℕ → BucketState
or_empty_bucket none now = record { queue_size = 0; last_leak_ms = now }
or_empty_bucket (some b) now = b

-- The bucket after the leak at `now`.
unfoldable pub leak : ℕ × ℕ → ℕ → BucketState → BucketState
leak (num, den) now b = record {
  queue_size = b.queue_size - (now - b.last_leak_ms) * num / den;
  last_leak_ms = now;
}

leak_nothing :
    (rate : ℕ × ℕ) (last now : ℕ) (b : BucketState)
    → b.last_leak_ms ≡ last
    → (now - last) * rate.0 < rate.1
    → leak rate now b ≡ record b { last_leak_ms = now }
unfolding leak
leak_nothing rate last now b at slow =
    ap (λ n. record b { queue_size = n; last_leak_ms = now })
      (ap (λ t. b.queue_size - (now - t) * rate.0 / rate.1) at
        ∙ ap (λ n. b.queue_size - n) (div-eq_of_lt slow)
        ∙ sub-zero b.queue_size)

module _ (r : Client BucketState) where
  open r use {Conn}

  unfoldable pub current_bucket : Conn → String → RateLimitConfig → Option ℕ → ℕ → BucketState
  unfolding get leak
  current_bucket c k cfg rate now =
      leak (leak_rate rate cfg) now (or_empty_bucket (get r c (store_key k) now) now)

  abbrev pub with_request : RateLimitConfig → BucketState → BucketState
  with_request cfg b =
      if ltb b.queue_size cfg.limit then record b { queue_size = b.queue_size + 1 } else b

  unfoldable pub check_limit : Conn → String → RateLimitConfig → Option ℕ → ℕ → Conn × Bool × ℕ
  unfolding current_bucket set
  check_limit c k cfg rate now =
      let b = current_bucket c k cfg rate now in
      let b' = with_request cfg b in
      (
        (set r c (store_key k) b' (cfg.window_ms * 2) now).0,
        ltb b.queue_size cfg.limit,
        b'.queue_size,
      )

  unfoldable pub reset : Conn → String → Conn
  unfolding delete
  reset c k = (delete r c (store_key k)).0

  -- The answers of the calls of a key at those times.
  unfoldable pub answers : Conn → String → RateLimitConfig → Option ℕ → List ℕ → List Bool
  unfolding check_limit
  answers c k cfg rate [] = []
  answers c k cfg rate (now ∷ times) =
      let (c', allowed, level) = check_limit c k cfg rate now in
      allowed ∷ answers c' k cfg rate times

  -- Each call comes before one request more could have leaked since the last, and before the state
  -- expires.
  abbrev pub Hasty : RateLimitConfig → Option ℕ → ℕ → List ℕ → Type 0
  Hasty cfg rate last [] = Unit
  Hasty cfg rate last (now ∷ times) =
      (last ≤ now)
      × ((now - last) * (leak_rate rate cfg).0 < (leak_rate rate cfg).1)
      × (now < last + cfg.window_ms * 2 * 1000)
      × Hasty cfg rate now times

  -- What is stored under the key is a full bucket that last leaked at that time, for as long as it
  -- lasts.
  abbrev pub Full : Conn → String → RateLimitConfig → ℕ → Type 0
  Full c k cfg last =
      (b : BucketState) × (cfg.limit ≤ b.queue_size)
      × (b.last_leak_ms ≡ last)
      × ((now : ℕ) → now < last + cfg.window_ms * 2 * 1000 → get r c (store_key k) now ≡ some b)

  module _ (up : Up r) (k : String) (cfg : RateLimitConfig) (rate : Option ℕ) where
    check_limit-Full :
        (c : Conn) (last now : ℕ)
        → Full c k cfg last
        → last ≤ now
        → (now - last) * (leak_rate rate cfg).0 < (leak_rate rate cfg).1
        → now < last + cfg.window_ms * 2 * 1000
        → ((check_limit c k cfg rate now).1 ≡ false)
          × Full (check_limit c k cfg rate now).0 k cfg now
    unfolding check_limit current_bucket
    check_limit-Full c last now (b, full, at, stored) le slow live =
        let kept = record b { last_leak_ms = now } in
        let found : current_bucket c k cfg rate now ≡ kept =
          ap (λ o. leak (leak_rate rate cfg) now (or_empty_bucket o now)) (stored now live)
          ∙ leak_nothing (leak_rate rate cfg) last now b at slow in
        let refused : ltb b.queue_size cfg.limit ≡ false = ground (arith, full) in
        let saved : with_request cfg (current_bucket c k cfg rate now) ≡ kept =
          ap (with_request cfg) found ∙ rw refused refl in
        (
          ap (λ x. ltb x.queue_size cfg.limit) found ∙ refused,
          (
            kept,
            full,
            refl,
            (λ n live'.
                get-set r up c (store_key k) (with_request cfg (current_bucket c k cfg rate now))
                  (cfg.window_ms * 2) now (store_key k) n
                ∙ rw (===_refl (store_key k), saved) (in_time n live')),
          ),
        )
      where
        in_time :
            (n : ℕ) {x : BucketState}
            → n < now + cfg.window_ms * 2 * 1000
            → (if ltb n (now + cfg.window_ms * 2 * 1000) then some x else none) ≡ some x
        in_time n h = ground (arith, h)

    -- A full bucket never empties for a key that asks too often: while Redis is up, and each call comes
    -- before one request could have leaked since the call before, every call is refused, however many
    -- there are.
    pub answers-Hasty :
        (c : Conn) (last : ℕ) (times : List ℕ)
        → Full c k cfg last
        → Hasty cfg rate last times
        → All (λ a. a ≡ false) (answers c k cfg rate times)
    unfolding answers
    answers-Hasty c last [] full h = tt
    answers-Hasty c last (now ∷ times) full h =
        let (refused, next) = check_limit-Full c last now full h.0 h.1 h.2 in
        (refused, answers-Hasty (check_limit c k cfg rate now).0 now times next h.3)

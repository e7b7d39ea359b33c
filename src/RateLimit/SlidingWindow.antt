-- ===== src/RateLimit/SlidingWindow.antt =====
-- src/modules/gateway/rate-limiting/strategies/sliding-window.strategy.ts: the log of the requests in the window.
use mash_backend.Prelude.{
  ℕ, zero, suc, ◌+◌, ◌-◌, ◌*◌, ◌≤◌, ◌<◌, ◌≡◌, refl, ap, sym, ◌∙◌, inl, inr, String, Bool, true,
  false, ◌&&◌, Option, none, some, List, [], ◌∷◌, ◌++◌, arith, if◌then◌else◌, ◌===◌, string_eq,
  ◌==◌, ltb, keep, length, All, Bool-cases, Option-cases,
}
use Prim.Native.String.{◌++◌ as text_append}
use mash_backend.RateLimit.Types.{RateLimitConfig, RateLimitResult}
use mash_backend.RateLimit.Redis.{Client, get, set, delete}
pub mod Counts
pub mod Bound

-- `KEY_PREFIX` and the key.
abbrev pub store_key : String → String
store_key k = text_append "ratelimit:slidingwindow:" k

-- `ts > now - windowMs`, without the subtraction.
abbrev pub in_window : ℕ → ℕ → ℕ → Bool
in_window w now ts = ltb now (ts + w)

-- `timestamps[0] || now`.
abbrev pub oldest : List ℕ → ℕ → ℕ
oldest [] now = now
oldest (t ∷ ts) now = if t == 0 then now else t

abbrev pub or_empty : Option (List ℕ) → List ℕ
or_empty none = []
or_empty (some ts) = ts

-- The answer, by the log after the call.
abbrev pub answer : RateLimitConfig → ℕ → List ℕ → Bool → RateLimitResult
answer cfg now log allowed =
    let reset_ms = oldest log now + cfg.window_ms - now in
    record {
      allowed = allowed;
      current = length log;
      limit = cfg.limit;
      remaining = cfg.limit - length log;
      reset_ms = reset_ms;
      retry_after_ms = if allowed then none else some reset_ms;
    }

module _ (r : Client (List ℕ)) where
  open r use {Conn}

  -- The log that a call finds, without the timestamps that have left the window.
  unfoldable pub current_log : Conn → String → RateLimitConfig → ℕ → List ℕ
  unfolding get
  current_log c k cfg now =
      keep (in_window cfg.window_ms now) (or_empty (get r c (store_key k) now))

  unfoldable pub check_limit : Conn → String → RateLimitConfig → ℕ → Conn × RateLimitResult
  unfolding current_log set
  check_limit c k cfg now =
      let timestamps = current_log c k cfg now in
      let allowed = ltb (length timestamps) cfg.limit in
      let log = if allowed then timestamps ++ (now ∷ []) else timestamps in
      ((set r c (store_key k) log (cfg.window_ms + 1000) now).0, answer cfg now log allowed)

  unfoldable pub reset : Conn → String → Conn
  unfolding delete
  reset c k = (delete r c (store_key k)).0

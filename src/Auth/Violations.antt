-- ===== src/Auth/Violations.antt =====
-- src/modules/auth/services/violation-tracker.service.ts: the violations of the rate limits by each
-- user, and how long a user has to wait after one. Times are in milliseconds, waits in seconds.
use Prim.Native.String.{◌++◌ as text_append}
use mash_backend.Prelude.{
  ℕ, zero, suc, ◌+◌, ◌-◌, ◌*◌, ◌/◌, String, Bool, true, false, Option, none, some, List, [], ◌∷◌,
  ◌++◌, length, ltb, min, ◌==◌, if◌then◌else◌,
}
use mash_backend.RateLimit.Redis.{Client, get, set, delete}
pub mod Backoff
pub mod History

pub record ViolationInfo : Type 0 where
  pub count : ℕ
  pub timestamps : List ℕ
  pub last_violation : ℕ

-- One hour, in seconds.
abbrev pub violation_ttl : ℕ
violation_ttl = 3600

abbrev pub max_violations : ℕ
max_violations = 10

unfoldable pub backoff_schedule : ℕ → ℕ
backoff_schedule n = if n == 1 then 60 else if n == 2 then 120 else if n == 3 then 300 else 600

unfoldable pub calculate_backoff : ℕ → ℕ
unfolding backoff_schedule
calculate_backoff count = if count == 0 then 0 else backoff_schedule (min count 4)

abbrev pub get_violation_key : String → String
get_violation_key user = text_append "violations:" user

abbrev pub drop : ℕ → List ℕ → List ℕ
drop zero xs = xs
drop (suc n) [] = []
drop (suc n) (x ∷ xs) = drop n xs

-- `xs.length > n ? xs.slice(-n) : xs`.
unfoldable pub keep_last : ℕ → List ℕ → List ℕ
keep_last n xs = if ltb n (length xs) then drop (length xs - n) xs else xs

-- The information after one more violation.
unfoldable pub with_violation : ℕ → ViolationInfo → ViolationInfo
unfolding keep_last
with_violation now v = record {
  count = v.count + 1;
  timestamps = keep_last max_violations (v.timestamps ++ (now ∷ []));
  last_violation = now;
}

-- `data || { count: 0, timestamps: [], lastViolation: 0 }`.
abbrev pub or_clean : Option ViolationInfo → ViolationInfo
or_clean none = record { count = 0; timestamps = []; last_violation = 0 }
or_clean (some v) = v

-- When the wait after the last violation ends.
unfoldable pub ends_at : ViolationInfo → ℕ
unfolding calculate_backoff
ends_at v = v.last_violation + calculate_backoff v.count * 1000

module _ (r : Client ViolationInfo) where
  open r use {Conn}

  unfoldable pub get_violations : Conn → String → ℕ → ViolationInfo
  unfolding get
  get_violations c user now = or_clean (get r c (get_violation_key user) now)

  unfoldable pub record_violation : Conn → String → ℕ → Conn × ℕ
  unfolding get_violations with_violation set
  record_violation c user now =
      let v = with_violation now (get_violations c user now) in
      ((set r c (get_violation_key user) v violation_ttl now).0, v.count)

  unfoldable pub get_backoff_time : Conn → String → ℕ → ℕ
  unfolding get_violations calculate_backoff
  get_backoff_time c user now = calculate_backoff (get_violations c user now).count

  -- `now - lastViolation < backoffMs`, with the subtraction moved over.
  unfoldable pub is_in_backoff : Conn → String → ℕ → Bool
  unfolding get_violations ends_at
  is_in_backoff c user now =
      let v = get_violations c user now in if v.count == 0 then false else ltb now (ends_at v)

  -- `Math.ceil(remainingMs / 1000)`, where something remains.
  unfoldable pub get_remaining_backoff : Conn → String → ℕ → ℕ
  unfolding get_violations ends_at
  get_remaining_backoff c user now =
      let v = get_violations c user now in
      if v.count == 0 then 0 else if ltb now (ends_at v) then (ends_at v - now + 999) / 1000 else 0

  unfoldable pub clear_violations : Conn → String → Conn
  unfolding delete
  clear_violations c user = (delete r c (get_violation_key user)).0

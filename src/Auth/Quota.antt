-- ===== src/Auth/Quota.antt =====
-- src/modules/auth/services/quota.service.ts: how many requests a user may make in a day and in a month.
-- The counters of Redis and the calendar of JavaScript, which are not part of the repository, are
-- parameters. Times are in milliseconds of the epoch, expiries in seconds. A role is one of the names of
-- src/modules/auth/interfaces/quota.interface.ts or counts as GUEST.
use Prim.Native.String.{◌++◌ as text_append}
use mash_backend.Prelude.{
  ℕ, suc, ◌+◌, ◌-◌, ◌*◌, ◌/◌, ◌≤◌, ◌≡◌, ◌≢◌, String, Bool, true, false, ltb, leb, ◌==◌,
  if◌then◌else◌, ◌===◌, string_eq,
}
use mash_backend.RateLimit.Redis.{Reply, value, failed}
pub mod Answers

pub record QuotaConfig : Type 0 where
  pub daily_limit : ℕ
  pub monthly_limit : ℕ

abbrev pub quota_of : ℕ → ℕ → QuotaConfig
quota_of d m = record { daily_limit = d; monthly_limit = m }

unfoldable pub get_role_quota : String → QuotaConfig
get_role_quota role =
    if role === "SUPER_ADMIN"
    then quota_of 1000000 30000000
    else if role === "ADMIN"
    then quota_of 100000 3000000
    else if role === "GROWER"
    then quota_of 20000 600000
    else if role === "BUYER"
    then quota_of 15000 450000
    else if role === "USER"
    then quota_of 10000 300000
    else quota_of 1000 30000

pub data QuotaPeriod : Type 0 where
  daily monthly : QuotaPeriod

-- What `toISOString` says of the day and of the month of a time, and when the month after it starts.
pub record Calendar : Type 0 where
  pub date_of : ℕ → String
  pub month_of : ℕ → String
  pub next_month_start : ℕ → ℕ

-- Numbers under keys, 0 where there is none. `INCRBY` adds to the number and gives the sum; after
-- `EXPIRE` a key holds what it held for so many seconds, and at 0 it is gone at once.
pub record Counters : Type 1 where
  pub Conn : Type 0
  pub ready : Conn → Bool
  pub held : Conn → String → ℕ → ℕ
  pub incr : Conn → String → ℕ → Reply (Conn × ℕ)
  pub incrby : Conn → String → ℕ → ℕ → Reply (Conn × ℕ)
  pub expire : Conn → String → ℕ → ℕ → Reply Conn
  pub del : Conn → String → Reply Conn
  pub held-incr :
      {c c' : Conn} {k : String} {n now : ℕ}
      → ready c ≡ true
      → incr c k now ≡ value (c', n)
      → (n ≡ held c k now + 1) × (held c' k now ≡ n)
  pub held-expire :
      {c c' : Conn} {k : String} {seconds now : ℕ}
      → ready c ≡ true
      → expire c k seconds now ≡ value c'
      → (later : ℕ) → now ≤ later
      → held c' k later ≡ (if ltb later (now + seconds * 1000) then held c k now else 0)

abbrev pub day : ℕ
day = 86400000

-- `getNextMidnight`, in UTC.
unfoldable pub get_next_midnight : ℕ → ℕ
get_next_midnight now = (now / day + 1) * day

unfoldable pub get_seconds_until_midnight : ℕ → ℕ
unfolding get_next_midnight
get_seconds_until_midnight now = (get_next_midnight now - now) / 1000

pub record Usage : Type 0 where
  pub limit : ℕ
  pub used : ℕ
  pub remaining : ℕ
  pub reset_at : ℕ
  pub exceeded : Bool

pub record QuotaInfo : Type 0 where
  pub daily_usage : Usage
  pub monthly_usage : Usage

unfoldable pub usage : ℕ → ℕ → ℕ → Usage
usage limit used resets = record {
  limit = limit;
  used = used;
  remaining = limit - used;
  reset_at = resets / 1000;
  exceeded = leb limit used;
}

module _ (r : Counters) (cal : Calendar) where
  open r use {Conn, ready, held, incr, incrby, expire, del}
  open cal use {date_of, month_of, next_month_start}

  unfoldable pub get_seconds_until_month_end : ℕ → ℕ
  get_seconds_until_month_end now = (next_month_start now - now) / 1000

  abbrev pub get_daily_key : String → ℕ → String
  get_daily_key user now =
      text_append "quota:daily:" (text_append user (text_append ":" (date_of now)))

  abbrev pub get_monthly_key : String → ℕ → String
  get_monthly_key user now =
      text_append "quota:monthly:" (text_append user (text_append ":" (month_of now)))

  abbrev pub counted : Conn → Reply (Conn × ℕ) → Conn × ℕ
  counted c (value p) = p
  counted c failed = (c, 0)

  abbrev pub or_same : Conn → Reply Conn → Conn
  or_same c (value c') = c'
  or_same c failed = c

  -- 0 where Redis is not there or throws.
  unfoldable pub increment_quota : Conn → String → ℕ → ℕ → Conn × ℕ
  increment_quota c k cost now =
      if not_ready c
      then (c, 0)
      else if cost == 1
      then counted c (incr c k now)
      else counted c (incrby c k cost now)
    where
      not_ready : Conn → Bool
      not_ready c = if ready c then false else true

  unfoldable pub expire_quota : Conn → String → ℕ → ℕ → Conn
  expire_quota c k seconds now = if ready c then or_same c (expire c k seconds now) else c

  unfoldable pub check_daily_quota : Conn → String → ℕ → ℕ → ℕ → Conn × Bool
  unfolding increment_quota expire_quota get_seconds_until_midnight
  check_daily_quota c user limit cost now =
      let k = get_daily_key user now in
      let (c', current) = increment_quota c k cost now in
      (expire_quota c' k (get_seconds_until_midnight now) now, leb current limit)

  unfoldable pub check_monthly_quota : Conn → String → ℕ → ℕ → ℕ → Conn × Bool
  unfolding increment_quota expire_quota get_seconds_until_month_end
  check_monthly_quota c user limit cost now =
      let k = get_monthly_key user now in
      let (c', current) = increment_quota c k cost now in
      (expire_quota c' k (get_seconds_until_month_end now) now, leb current limit)

  unfoldable pub check_quota : Conn → String → String → ℕ → ℕ → Conn × Bool
  unfolding get_role_quota check_daily_quota check_monthly_quota
  check_quota c user role cost now =
      let config = get_role_quota role in
      let (c', ok) = check_daily_quota c user config.daily_limit cost now in
      if ok then check_monthly_quota c' user config.monthly_limit cost now else (c', false)

  abbrev pub used_of : Conn → String → ℕ → ℕ
  used_of c k now = if ready c then held c k now else 0

  unfoldable pub get_quota_info : Conn → String → String → ℕ → QuotaInfo
  unfolding get_role_quota usage get_next_midnight
  get_quota_info c user role now =
      let config = get_role_quota role in
      record {
        daily_usage =
            usage config.daily_limit (used_of c (get_daily_key user now) now)
              (get_next_midnight now);
        monthly_usage =
            usage config.monthly_limit (used_of c (get_monthly_key user now) now)
              (next_month_start now);
      }

  unfoldable pub reset_quota : Conn → String → QuotaPeriod → ℕ → Conn
  reset_quota c user daily now = if ready c then or_same c (del c (get_daily_key user now)) else c
  reset_quota c user monthly now =
      if ready c then or_same c (del c (get_monthly_key user now)) else c

-- Redis is up: the client stays connected, and no call throws.
pub record Up (r : Counters) : Type 0 where
  pub connected : (c : r.Conn) → r.ready c ≡ true
  pub counts :
      (c : r.Conn) (k : String) (now : ℕ)
      → (c' : r.Conn) × (n : ℕ) × (r.incr c k now ≡ value (c', n))
  pub expires :
      (c : r.Conn) (k : String) (seconds now : ℕ)
      → (c' : r.Conn) × (r.expire c k seconds now ≡ value c')

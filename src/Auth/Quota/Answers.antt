-- ===== src/Auth/Quota/Answers.antt =====
-- Which requests of a day the daily quota lets through (quota.service.ts, `checkDailyQuota`).
use mathlib.Core.Path.{subst}
use mash_backend.Prelude.{
  ℕ, ◌+◌, ◌-◌, ◌*◌, ◌≤◌, ◌<◌, ◌≡◌, refl, ap, sym, ◌∙◌, String, Bool, true, List, [], ◌∷◌, All, ltb,
  leb, lt→ltb, if◌then◌else◌, arith,
}
use mash_backend.Auth.Quota.{
  Calendar, Counters, Up, get_seconds_until_midnight, get_next_midnight, get_daily_key,
  increment_quota, expire_quota, check_daily_quota,
}

-- What a limit makes of so many requests after the first `n`.
abbrev pub expected : ℕ → ℕ → List ℕ → List Bool
expected limit n [] = []
expected limit n (t ∷ ts) = leb (n + 1) limit ∷ expected limit (n + 1) ts

-- How many were let through.
abbrev pub passed : List Bool → ℕ
passed [] = 0
passed (b ∷ bs) = (if b then 1 else 0) + passed bs

passed-expected : (limit n : ℕ) (ts : List ℕ) → passed (expected limit n ts) ≤ limit - n
passed-expected limit n [] = omega arith
passed-expected limit n (t ∷ ts) = ground (arith, passed-expected limit (n + 1) ts)

module _ (r : Counters) (up : Up r) (cal : Calendar) (user : String) (limit : ℕ) where
  open r use {Conn, held, held-incr, held-expire}

  abbrev pub one : Conn → ℕ → Conn × Bool
  one c now = check_daily_quota r cal c user limit 1 now

  increment_up :
      (c : Conn) (k : String) (now : ℕ)
      → ((increment_quota r cal c k 1 now).1 ≡ held c k now + 1)
        × (held (increment_quota r cal c k 1 now).0 k now ≡ held c k now + 1)
  unfolding increment_quota
  increment_up c k now =
      let (c', n, h) = up.counts c k now in
      let (sum, kept) = held-incr (up.connected c) h in
      rw (up.connected c, h, increment_quota) (sum, kept ∙ sum)

  expire_up :
      (c : Conn) (k : String) (seconds now later : ℕ)
      → now ≤ later
      → held (expire_quota r cal c k seconds now) k later
        ≡ (if ltb later (now + seconds * 1000) then held c k now else 0)
  unfolding expire_quota
  expire_up c k seconds now later after =
      let (c', h) = up.expires c k seconds now in
      rw (up.connected c, h, expire_quota) (held-expire (up.connected c) h later after)

  -- A request is answered by the count with it, which then stays under the key of the day until that
  -- expires.
  one_effect :
      (c : Conn) (now later : ℕ)
      → now ≤ later
      → let k = get_daily_key r cal user now in
        ((one c now).1 ≡ leb (held c k now + 1) limit)
        × (held (one c now).0 k later ≡ (
            if ltb later (now + get_seconds_until_midnight now * 1000)
            then held c k now + 1
            else 0))
  unfolding check_daily_quota
  one_effect c now later after =
      let k = get_daily_key r cal user now in
      let (sum, kept) = increment_up c k now in
      (
        ap (λ n. leb n limit) sum,
        expire_up (increment_quota r cal c k 1 now).0 k (get_seconds_until_midnight now) now later
              after
            ∙ ap (λ n. if ltb later (now + get_seconds_until_midnight now * 1000) then n else 0)
                kept,
      )

  -- The answers to requests at those times.
  unfoldable pub answers : Conn → List ℕ → List Bool
  answers c [] = []
  answers c (t ∷ ts) = let (c', ok) = one c t in ok ∷ answers c' ts

  -- The times are of one day, follow one another, and each comes before the key of the last expires.
  abbrev pub Running : String → ℕ → List ℕ → Type 0
  Running date t [] = cal.date_of t ≡ date
  Running date t (u ∷ us) =
      (cal.date_of t ≡ date)
      × (t ≤ u)
      × (u < t + get_seconds_until_midnight t * 1000)
      × Running date u us

  same_date : (date : String) (t : ℕ) (ts : List ℕ) → Running date t ts → cal.date_of t ≡ date
  same_date date t [] h = h
  same_date date t (u ∷ us) h = h.0

  -- The number under the key of one time is that under the key of another of the same day.
  same_key :
      (c : Conn) (t u : ℕ)
      → cal.date_of t ≡ cal.date_of u
      → held c (get_daily_key r cal user u) u ≡ held c (get_daily_key r cal user t) u
  same_key c t u same = rw same refl

  answers-expected :
      (ts : List ℕ) (c : Conn) (t n : ℕ) (date : String)
      → held c (get_daily_key r cal user t) t ≡ n
      → Running date t ts
      → answers c (t ∷ ts) ≡ expected limit n (t ∷ ts)
  unfolding answers
  answers-expected [] c t n date here running =
      ap (λ b. b ∷ []) ((one_effect c t t (omega arith)).0 ∙ ap (λ m. leb (m + 1) limit) here)
  answers-expected (u ∷ us) c t n date here (today, after, alive, running) =
      let (now, next) = one_effect c t u after in
      let same = today ∙ sym (same_date date u us running) in
      let found : held (one c t).0 (get_daily_key r cal user u) u ≡ n + 1 =
        same_key (one c t).0 t u same
        ∙ next
        ∙ rw (lt→ltb u (t + get_seconds_until_midnight t * 1000) alive, here) refl in
      ap (λ b. b ∷ answers (one c t).0 (u ∷ us)) (now ∙ ap (λ m. leb (m + 1) limit) here)
      ∙ ap (λ bs. leb (n + 1) limit ∷ bs)
          (answers-expected us (one c t).0 u (n + 1) date found running)

  -- While Redis is up, the requests of a day that come before the counter expires, at the start of which it
  -- holds nothing, are let through exactly up to the limit.
  pub daily_quota_exact :
      (c : Conn) (t : ℕ) (ts : List ℕ) (date : String)
      → held c (get_daily_key r cal user t) t ≡ 0
      → Running date t ts
      → (answers c (t ∷ ts) ≡ expected limit 0 (t ∷ ts)) × (passed (answers c (t ∷ ts)) ≤ limit)
  daily_quota_exact c t ts date fresh running =
      let same = answers-expected ts c t 0 date fresh running in
      (
        same,
        subst (λ bs. passed bs ≤ limit) (sym same)
            (omega (arith, passed-expected limit 0 (t ∷ ts))),
      )

  -- The times are of one day, follow one another, and less than a second before its end.
  abbrev pub LastSecond : String → ℕ → List ℕ → Type 0
  LastSecond date t [] = (cal.date_of t ≡ date) × (get_next_midnight t < t + 1000)
  LastSecond date t (u ∷ us) =
      (cal.date_of t ≡ date) × (get_next_midnight t < t + 1000) × (t ≤ u) × LastSecond date u us

  last_date : (date : String) (t : ℕ) (ts : List ℕ) → LastSecond date t ts → cal.date_of t ≡ date
  last_date date t [] h = h.0
  last_date date t (u ∷ us) h = h.0

  no_seconds : (t : ℕ) → get_next_midnight t < t + 1000 → get_seconds_until_midnight t ≡ 0
  unfolding get_seconds_until_midnight
  no_seconds t h = omega (arith, h)

  -- While Redis is up, for a limit above 0 and a counter that holds nothing at the first of them: all requests
  -- in the last second of a day are let through, however many they are, since the counter expires at
  -- once.
  pub late_requests_pass :
      (ts : List ℕ) (c : Conn) (t : ℕ) (date : String)
      → 1 ≤ limit
      → held c (get_daily_key r cal user t) t ≡ 0
      → LastSecond date t ts
      → All (λ b. b ≡ true) (answers c (t ∷ ts))
  unfolding answers
  late_requests_pass [] c t date positive fresh last =
      ((one_effect c t t (omega arith)).0 ∙ ground (arith, fresh, positive), tt)
  late_requests_pass (u ∷ us) c t date positive fresh (today, late, after, last) =
      let (now, next) = one_effect c t u after in
      let same = today ∙ sym (last_date date u us last) in
      let gone : held (one c t).0 (get_daily_key r cal user u) u ≡ 0 =
        same_key (one c t).0 t u same ∙ next ∙ rw (no_seconds t late) (ground (arith, after)) in
      (
        now ∙ ground (arith, fresh, positive),
        late_requests_pass us (one c t).0 u date positive gone last,
      )

-- ===== src/RateLimit/SlidingWindow/Bound.antt =====
-- The accepted requests of the sliding window over sequences of calls (sliding-window.strategy.ts,
-- `checkLimit`).
use mathlib.Core.Path.{subst}
use mash_backend.Prelude.{
  ℕ, ◌+◌, ◌*◌, ◌≤◌, ◌≡◌, refl, ap, sym, ◌∙◌, inl, inr, String, Bool, false, ◌&&◌, none, some, List,
  [], ◌∷◌, ◌++◌, arith, if◌then◌else◌, ◌===◌, ===_iff, ===_refl, string_eq, ltb, length, All,
  Bool-cases,
}
use mash_backend.RateLimit.Types.{RateLimitConfig}
use mash_backend.RateLimit.Redis.{Client, Up, get, get-set}
use mash_backend.RateLimit.SlidingWindow.{store_key, or_empty, current_log, check_limit}
use mash_backend.RateLimit.SlidingWindow.Counts.{
  within, since, within-since, within≤since_now, since-keep, length-keep, since-snoc, since_gone,
  All-later, key_iff,
}

-- The time of the last call.
abbrev pub last_time : ℕ → List (String × ℕ) → ℕ
last_time last [] = last
last_time last ((j, now) ∷ cs) = last_time now cs

-- The clock does not go back.
abbrev pub Ordered : ℕ → List (String × ℕ) → Type 0
Ordered last [] = Unit
Ordered last ((j, now) ∷ cs) = (last ≤ now) × Ordered now cs

module _ (r : Client (List ℕ)) (up : Up r) (cfg : RateLimitConfig) (k : String) where
  open r use {Conn, read-setex}

  -- The calls one after the other, by their keys and times: the connection at the end, and the times
  -- of the accepted requests of that key, the last one first.
  unfoldable pub run : Conn → List ℕ → List (String × ℕ) → Conn × List ℕ
  unfolding check_limit
  run c past [] = (c, past)
  run c past ((j, now) ∷ cs) =
      let (c', a) = check_limit r c j cfg now in
      run c' (if j === k && a.allowed then now ∷ past else past) cs

  -- What is stored under the key.
  abbrev stored : Conn → ℕ → List ℕ
  stored c now = or_empty (get r c (store_key k) now)

  -- The accepted times so far, up to `last`, against what is stored: the counts agree from now on, and
  -- no window has too many.
  Kept : Conn → ℕ → List ℕ → Type 0
  Kept c last past =
      All (λ t. t ≤ last) past
      × ((now e : ℕ)
          → last ≤ now
          → now ≤ e
          → since cfg.window_ms e (stored c now) ≡ since cfg.window_ms e past)
      × ((e : ℕ) → within cfg.window_ms e past ≤ cfg.limit)

  abbrev allowed_at : Conn → ℕ → Bool
  allowed_at c now = ltb (length (current_log r c k cfg now)) cfg.limit

  abbrev next_log : Conn → String → ℕ → List ℕ
  next_log c j now =
      let log = current_log r c j cfg now in
      if ltb (length log) cfg.limit then log ++ (now ∷ []) else log

  get-check_limit :
      (c : Conn) (j : String) (now later : ℕ)
      → get r (check_limit r c j cfg now).0 (store_key k) later ≡ (
          if j === k
          then if ltb later (now + (cfg.window_ms + 1000) * 1000)
            then some (next_log c j now)
            else none
          else get r c (store_key k) later)
  unfolding check_limit
  get-check_limit c j now later =
      get-set r up c (store_key j) (next_log c j now) (cfg.window_ms + 1000) now (store_key k) later
      ∙ rw (key_iff j k) refl

  current_since :
      (c : Conn) (now e : ℕ)
      → now ≤ e
      → since cfg.window_ms e (current_log r c k cfg now) ≡ since cfg.window_ms e (stored c now)
  unfolding current_log
  current_since c now e le = since-keep cfg.window_ms now e (stored c now) le

  current_length :
      (c : Conn) (now : ℕ)
      → length (current_log r c k cfg now) ≡ since cfg.window_ms now (stored c now)
  unfolding current_log
  current_length c now = length-keep cfg.window_ms now (stored c now)

  Kept-other :
      (c : Conn) (j : String) (last now : ℕ) (past : List ℕ)
      → (j === k) ≡ false
      → last ≤ now
      → Kept c last past
      → Kept (check_limit r c j cfg now).0 now past
  unfolding Kept
  Kept-other c j last now past other le (before, counts, most) = (
    All-later le past before,
    (λ n e from to.
        ap (λ s. since cfg.window_ms e (or_empty s)) {y = get r c (store_key k) n}
          (get-check_limit c j now n ∙ rw other refl)
        ∙ counts n e (omega arith) to),
    most,
  )

  next_since :
      (c : Conn) (now e : ℕ) (past : List ℕ)
      → now ≤ e
      → since cfg.window_ms e (stored c now) ≡ since cfg.window_ms e past
      → since cfg.window_ms e (next_log c k now)
        ≡ since cfg.window_ms e (if allowed_at c now then now ∷ past else past)
  unfolding since
  next_since c now e past le same = elim (Bool-cases (allowed_at c now)) [
    | inl yes' ↦ rw yes' (
        since-snoc cfg.window_ms e now (current_log r c k cfg now)
        ∙ ground (arith, current_since c now e le, same))
    | inr no' ↦ rw no' (current_since c now e le ∙ same)
  ]

  abbrev past_next : Conn → ℕ → List ℕ → List ℕ
  past_next c now past = if allowed_at c now then now ∷ past else past

  before_next :
      (c : Conn) (last now : ℕ) (past : List ℕ)
      → last ≤ now
      → All (λ t. t ≤ last) past
      → All (λ t. t ≤ now) (past_next c now past)
  before_next c last now past le h = elim (Bool-cases (allowed_at c now)) [
    | inl yes' ↦ rw yes' (omega arith, All-later le past h)
    | inr no' ↦ rw no' (All-later le past h)
  ]

  most_next :
      (c : Conn) (now e : ℕ) (past : List ℕ)
      → since cfg.window_ms now (stored c now) ≡ since cfg.window_ms now past
      → within cfg.window_ms e past ≤ cfg.limit
      → within cfg.window_ms e (past_next c now past) ≤ cfg.limit
  unfolding within
  most_next c now e past same most =
      let room = current_length c now ∙ same in
      let fewer = λ (le : now ≤ e). within≤since_now cfg.window_ms now e past le in
      ground (arith, room, fewer, most)

  Kept-next :
      (c : Conn) (last now : ℕ) (past : List ℕ)
      → last ≤ now
      → Kept c last past
      → Kept (check_limit r c k cfg now).0 now (past_next c now past)
  unfolding Kept since
  Kept-next c last now past le (before, counts, most) =
      let earlier = before_next c last now past le before in
      (
        earlier,
        (λ n e from to.
            let read = get-check_limit c k now n in
            elim (Bool-cases (ltb n (now + (cfg.window_ms + 1000) * 1000))) [
              | inl live ↦
                  ap (λ s. since cfg.window_ms e (or_empty s)) {y = some (next_log c k now)}
                    (read ∙ rw (===_refl k, live) refl)
                  ∙ next_since c now e past (omega arith) (counts now e le (omega arith))
              | inr expired ↦
                  ap (λ s. since cfg.window_ms e (or_empty s)) {y = none}
                    (read ∙ rw (===_refl k, expired) refl)
                  ∙ sym (
                      since_gone cfg.window_ms now e (past_next c now past)
                        (ground (arith, expired, to)) earlier)
            ]),
        (λ e. most_next c now e past (counts now now le (omega arith)) (most e)),
      )

  Kept-first : (c : Conn) → ((now : ℕ) → get r c (store_key k) now ≡ none) → Kept c 0 []
  unfolding Kept within
  Kept-first c fresh = (
    tt,
    (λ now e from to. ap (λ s. since cfg.window_ms e (or_empty s)) {y = none} (fresh now)),
    (λ e. omega arith),
  )

  Kept-call :
      (c : Conn) (j : String) (last now : ℕ) (past : List ℕ)
      → last ≤ now
      → Kept c last past
      → let (c', a) = check_limit r c j cfg now in
        Kept c' now (if j === k && a.allowed then now ∷ past else past)
  unfolding check_limit
  Kept-call c j last now past le kept = elim (Bool-cases (j === k)) [
    | inl same ↦
        subst
          (λ h.
            Kept (check_limit r c h cfg now).0 now
              (if h === k && (check_limit r c h cfg now).1.allowed then now ∷ past else past))
          (sym ((===_iff j k).0 same)) (rw (===_refl k) (Kept-next c last now past le kept))
    | inr other ↦ rw other (Kept-other c j last now past other le kept)
  ]

  Kept-run :
      (cs : List (String × ℕ)) (c : Conn) (last : ℕ) (past : List ℕ)
      → Kept c last past
      → Ordered last cs
      → let (c', ts) = run c past cs in Kept c' (last_time last cs) ts
  unfolding run
  Kept-run [] c last past kept order = kept
  Kept-run ((j, now) ∷ cs) c last past kept order =
      let (c', a) = check_limit r c j cfg now in
      Kept-run cs c' now (if j === k && a.allowed then now ∷ past else past)
        (Kept-call c j last now past order.0 kept) order.1

  -- While Redis is up and the clock does not go back, for a key that nothing is stored under: however
  -- the calls come, on this key and on others, no window of the configured length, ending at any time,
  -- holds more accepted requests of the key than the limit.
  pub run_bound :
      (cs : List (String × ℕ)) (c : Conn) (e : ℕ)
      → ((now : ℕ) → get r c (store_key k) now ≡ none)
      → Ordered 0 cs
      → within cfg.window_ms e (run c [] cs).1 ≤ cfg.limit
  unfolding Kept
  run_bound cs c e fresh order = (Kept-run cs c 0 [] (Kept-first c fresh) order).2 e

  -- While Redis is up and the clock does not go back, for a key that nothing is stored under: after
  -- any calls, a next call of the key is allowed exactly when the window that ends with it holds fewer
  -- accepted requests than the limit.
  pub check_limit_exact :
      (cs : List (String × ℕ)) (c : Conn) (now : ℕ)
      → ((now : ℕ) → get r c (store_key k) now ≡ none)
      → Ordered 0 cs
      → last_time 0 cs ≤ now
      → let (c', past) = run c [] cs in
        (check_limit r c' k cfg now).1.allowed ≡ ltb (within cfg.window_ms now past) cfg.limit
  unfolding Kept check_limit
  check_limit_exact cs c now fresh order le =
      let (c', past) = run c [] cs in
      let (before, counts, most) = Kept-run cs c 0 [] (Kept-first c fresh) order in
      let recent : length (current_log r c' k cfg now) ≡ within cfg.window_ms now past =
        current_length c' now
        ∙ counts now now le (omega arith)
        ∙ sym (within-since cfg.window_ms now past (All-later le past before)) in
      ap (λ n. ltb n cfg.limit) recent

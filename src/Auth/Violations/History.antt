-- ===== src/Auth/Violations/History.antt =====
-- What is stored of a row of violations (violation-tracker.service.ts).
use mathlib.Core.Path.{subst}
use mash_backend.Prelude.{
  ℕ, zero, suc, min, ◌+◌, ◌*◌, ◌<◌, ◌≡◌, refl, ap, sym, ◌∙◌, String, true, none, some, List, [],
  ◌∷◌, ◌++◌, length, length-append, ltb, lt→ltb, arith, ===_refl, string_eq,
}
use mash_backend.RateLimit.Redis.{Client, get, set, Up, get-set}
use mash_backend.Auth.Violations.{
  ViolationInfo, backoff_schedule, calculate_backoff, get_violation_key, keep_last, with_violation,
  or_clean, get_violations, record_violation, get_backoff_time,
}
use mash_backend.Auth.Violations.Backoff.{keep_last-append, keep_last-end}

abbrev pub last_or : ℕ → List ℕ → ℕ
last_or d [] = d
last_or d (x ∷ xs) = last_or x xs

last_or-append : (d t : ℕ) (xs : List ℕ) → last_or d (xs ++ (t ∷ [])) ≡ t
last_or-append d t [] = refl
last_or-append d t (x ∷ xs) = last_or-append x t xs

append_assoc : (xs : List ℕ) (t : ℕ) (ys : List ℕ) → (xs ++ (t ∷ [])) ++ ys ≡ xs ++ (t ∷ ys)
append_assoc [] t ys = refl
append_assoc (x ∷ xs) t ys = ap (λ l. x ∷ l) (append_assoc xs t ys)

-- The information about violations at those times: how many they are, the last ten, and the last.
unfoldable pub info_of : List ℕ → ViolationInfo
unfolding keep_last
info_of ts = record {
  count = length ts;
  timestamps = keep_last 10 ts;
  last_violation = last_or 0 ts;
}

with_violation-info_of :
    (t : ℕ) (ts : List ℕ) → with_violation t (info_of ts) ≡ info_of (ts ++ (t ∷ []))
unfolding with_violation info_of
with_violation-info_of t ts = λ i. record {
  count = sym (length-append ts (t ∷ [])) i;
  timestamps = keep_last-append 10 t ts (omega arith) i;
  last_violation = sym (last_or-append 0 t ts) i;
}

-- What is remembered of violations at those times.
pub record Recalled (ts : List ℕ) (v : ViolationInfo) : Type 0 where
  pub counted : v.count ≡ length ts
  pub newest : (older : List ℕ) × (older ++ v.timestamps ≡ ts)
  pub ten : length v.timestamps ≡ min 10 (length ts)
  pub last_time : v.last_violation ≡ last_or 0 ts

info_of-Recalled : (ts : List ℕ) → Recalled ts (info_of ts)
unfolding info_of
info_of-Recalled ts =
    let (newest, ten) = keep_last-end 10 ts in
    record { counted = refl; newest = newest; ten = ten; last_time = refl }

-- The seconds to wait after so many violations.
abbrev pub wait_of : ℕ → ℕ
wait_of zero = 0
wait_of (suc zero) = 60
wait_of (suc (suc zero)) = 120
wait_of (suc (suc (suc zero))) = 300
wait_of (suc (suc (suc (suc n)))) = 600

calculate_backoff-wait : (n : ℕ) → calculate_backoff n ≡ wait_of n
unfolding calculate_backoff backoff_schedule
calculate_backoff-wait zero = refl
calculate_backoff-wait (suc zero) = refl
calculate_backoff-wait (suc (suc zero)) = refl
calculate_backoff-wait (suc (suc (suc zero))) = refl
calculate_backoff-wait (suc (suc (suc (suc n)))) = ground arith

-- The times follow one another within an hour, and so does `later` the last.
abbrev pub Within : ℕ → List ℕ → ℕ → Type 0
Within t [] later = later < t + 3600000
Within t (u ∷ us) later = (u < t + 3600000) × Within u us later

module _ (r : Client ViolationInfo) (up : Up r) (user : String) where
  open r use {Conn}

  -- The calls of `recordViolation` at those times.
  unfoldable pub record_all : Conn → List ℕ → Conn
  unfolding record_violation
  record_all c [] = c
  record_all c (t ∷ ts) = record_all (record_violation r c user t).0 ts

  get-record_violation :
      (c : Conn) (t later : ℕ)
      → later < t + 3600000
      → get_violations r (record_violation r c user t).0 user later
        ≡ with_violation t (get_violations r c user t)
  unfolding get_violations record_violation
  get-record_violation c t later soon =
      let k = get_violation_key user in
      let v = with_violation t (get_violations r c user t) in
      let live : ltb later (t + 3600 * 1000) ≡ true =
        lt→ltb later (t + 3600 * 1000) (omega (arith, soon)) in
      let found : get r (set r c k v 3600 t).0 k later ≡ some v =
        get-set r up c k v 3600 t k later ∙ rw (===_refl k, live) refl in
      ap or_clean found

  get-record_all :
      (ts : List ℕ) (t later : ℕ) (c : Conn) (before : List ℕ)
      → get_violations r c user t ≡ info_of before
      → Within t ts later
      → get_violations r (record_all c (t ∷ ts)) user later ≡ info_of (before ++ (t ∷ ts))
  unfolding record_all
  get-record_all [] t later c before known soon =
      get-record_violation c t later soon
      ∙ ap (with_violation t) known
      ∙ with_violation-info_of t before
  get-record_all (u ∷ us) t later c before known (soon, rest) =
      get-record_all us u later (record_violation r c user t).0 (before ++ (t ∷ []))
        (get-record_violation c t u soon
          ∙ ap (with_violation t) known
          ∙ with_violation-info_of t before)
        rest
      ∙ ap info_of (append_assoc before t (u ∷ us))

  -- While Redis is up, violations that follow one another within an hour, the first of a user about whom
  -- nothing is stored, leave for an hour what there is to know of them: how many they were, the
  -- last ten of their times, or all where there are fewer, and the last. The wait is then one, two,
  -- five or, from the fourth on, ten minutes.
  pub record_all-Recalled :
      (c : Conn) (t : ℕ) (ts : List ℕ) (later : ℕ)
      → get r c (get_violation_key user) t ≡ none
      → Within t ts later
      → Recalled (t ∷ ts) (get_violations r (record_all c (t ∷ ts)) user later)
        × (get_backoff_time r (record_all c (t ∷ ts)) user later ≡ wait_of (length (t ∷ ts)))
  unfolding get_violations get_backoff_time info_of
  record_all-Recalled c t ts later clean soon =
      let known = get-record_all ts t later c [] (ap or_clean clean) soon in
      (
        subst (Recalled (t ∷ ts)) (sym known) (info_of-Recalled (t ∷ ts)),
        ap (λ v. calculate_backoff v.count) known ∙ calculate_backoff-wait (length (t ∷ ts)),
      )

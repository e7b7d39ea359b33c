-- ===== src/Auth/Violations/Backoff.antt =====
-- The waits after violations, and what is stored of them (violation-tracker.service.ts).
use mash_backend.Prelude.{
  ℕ, zero, suc, ◌+◌, ◌-◌, ◌*◌, ◌≤◌, ◌<◌, ◌≡◌, refl, ap, sym, ◌∙◌, ◌↔◌, inl, inr, String, true,
  false, List, [], ◌∷◌, ◌++◌, length, length-append, ltb, min, Bool-cases, arith, string_eq,
}
use mash_backend.RateLimit.Redis.{Client}
use mash_backend.Auth.Violations.{
  ViolationInfo, backoff_schedule, calculate_backoff, drop, keep_last, ends_at, get_violations,
  is_in_backoff, get_remaining_backoff,
}

ends_at_le : (v : ViolationInfo) → ends_at v ≤ v.last_violation + 600000
unfolding ends_at calculate_backoff backoff_schedule
ends_at_le v = ground arith

-- The lists that `keep_last` makes.
keep_last-drop : (n : ℕ) (xs : List ℕ) → keep_last n xs ≡ drop (length xs - n) xs
unfolding keep_last
keep_last-drop n xs = elim (Bool-cases (ltb n (length xs))) [
  | inl e ↦ rw (e, keep_last) refl
  | inr e ↦ rw (e, keep_last) (ap (λ k. drop k xs) {x = 0} (omega (arith, short n (length xs) e)))
]
  where
    short : (n m : ℕ) → ltb n m ≡ false → m ≤ n
    short n m h = ground arith

drop-append : (k : ℕ) (xs ys : List ℕ) → k ≤ length xs → drop k (xs ++ ys) ≡ drop k xs ++ ys
drop-append zero xs ys h = refl
drop-append (suc k) [] ys h = absurd (omega arith)
drop-append (suc k) (x ∷ xs) ys h = drop-append k xs ys (omega arith)

length-drop : (k : ℕ) (xs : List ℕ) → length (drop k xs) ≡ length xs - k
length-drop zero xs = omega arith
length-drop (suc k) [] = omega arith
length-drop (suc k) (x ∷ xs) = omega (arith, length-drop k xs)

drop_nil : (k : ℕ) → drop k [] ≡ []
drop_nil zero = refl
drop_nil (suc k) = refl

drop-drop : (k j : ℕ) (xs : List ℕ) → drop j (drop k xs) ≡ drop (k + j) xs
drop-drop zero j xs = ap (λ i. drop i xs) (omega arith)
drop-drop (suc k) j [] = drop_nil j ∙ sym (drop_nil (suc k + j))
drop-drop (suc k) j (x ∷ xs) =
    drop-drop k j xs ∙ ap (λ i. drop i (x ∷ xs)) {x = suc (k + j)} (omega arith)

-- Keeping the last of all is keeping the last of those kept.
pub keep_last-append :
    (n t : ℕ) (xs : List ℕ)
    → 0 < n
    → keep_last n (keep_last n xs ++ (t ∷ [])) ≡ keep_last n (xs ++ (t ∷ []))
keep_last-append n t xs pos =
    let old = length xs - n in
    let kept = drop old xs in
    let more = length (kept ++ (t ∷ [])) - n in
    let all = length (xs ++ (t ∷ [])) - n in
    let size : length (kept ++ (t ∷ [])) ≡ length xs - old + 1 =
      length-append kept (t ∷ []) ∙ ap (λ k. k + 1) (length-drop old xs) in
    let size' : length (xs ++ (t ∷ [])) ≡ length xs + 1 = length-append xs (t ∷ []) in
    keep_last-drop n (keep_last n xs ++ (t ∷ []))
    ∙ ap (λ l. drop (length (l ++ (t ∷ [])) - n) (l ++ (t ∷ []))) (keep_last-drop n xs)
    ∙ drop-append more kept (t ∷ []) (omega (arith, size, length-drop old xs))
    ∙ ap (λ l. l ++ (t ∷ []))
        (drop-drop old more xs
          ∙ ap (λ i. drop i xs) {x = old + more} {y = all} (omega (arith, size, size')))
    ∙ sym (drop-append all xs (t ∷ []) (omega (arith, size')))
    ∙ sym (keep_last-drop n (xs ++ (t ∷ [])))

-- What is kept is the end of the list, of that length at most.
pub keep_last-end :
    (n : ℕ) (xs : List ℕ)
    → ((older : List ℕ) × (older ++ keep_last n xs ≡ xs))
      × (length (keep_last n xs) ≡ min n (length xs))
keep_last-end n xs =
    let kept = keep_last-drop n xs in
    let (older, all) = drop-end (length xs - n) xs in
    (
      (older, ap (λ l. older ++ l) kept ∙ all),
      ap length kept ∙ length-drop (length xs - n) xs ∙ sizes (length xs),
    )
  where
    drop-end : (k : ℕ) (ys : List ℕ) → (older : List ℕ) × (older ++ drop k ys ≡ ys)
    drop-end zero ys = ([], refl)
    drop-end (suc k) [] = ([], refl)
    drop-end (suc k) (y ∷ ys) = let (older, all) = drop-end k ys in (y ∷ older, ap (λ l. y ∷ l) all)

    sizes : (m : ℕ) → m - (m - n) ≡ min n m
    sizes m = ground arith

module _ (r : Client ViolationInfo) where
  open r use {Conn}

  -- A user is in backoff exactly as long as a part of the wait remains, which is never more than ten minutes
  -- from the last violation on.
  pub is_in_backoff_iff :
      (c : Conn) (user : String) (now : ℕ)
      → let v = get_violations r c user now in
        let left = get_remaining_backoff r c user now in
        ((is_in_backoff r c user now ≡ true) ↔ (0 < left))
        × (left * 1000 ≤ v.last_violation + 600999 - now)
  unfolding is_in_backoff get_remaining_backoff
  is_in_backoff_iff c user now = ground (arith, ends_at_le (get_violations r c user now))

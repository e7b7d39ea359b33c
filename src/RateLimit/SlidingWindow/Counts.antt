-- ===== src/RateLimit/SlidingWindow/Counts.antt =====
-- Counting the accepted requests in a window, for the sliding window (sliding-window.strategy.ts,
-- `checkLimit`).
use mash_backend.Prelude.{
  ℕ, suc, ◌+◌, ◌≤◌, ◌≡◌, refl, ap, String, ◌&&◌, List, [], ◌∷◌, ◌++◌, arith, if◌then◌else◌, ◌===◌,
  ===_iff, string_eq, leb, keep, length, All,
}
use mash_backend.Prelude.Texts.{append_cancel}
use mash_backend.RateLimit.SlidingWindow.{store_key, in_window}

-- How many of the times lie in the `w` milliseconds before `e`.
unfoldable pub within : ℕ → ℕ → List ℕ → ℕ
within w e [] = 0
within w e (t ∷ ts) =
    let rest = within w e ts in if leb t e && in_window w e t then suc rest else rest

-- How many are after the `w` milliseconds before `e` began.
unfoldable pub since : ℕ → ℕ → List ℕ → ℕ
since w e [] = 0
since w e (t ∷ ts) = let rest = since w e ts in if in_window w e t then suc rest else rest

pub within-since :
    (w now : ℕ) (ts : List ℕ) → All (λ t. t ≤ now) ts → within w now ts ≡ since w now ts
unfolding within since
within-since w now [] h = refl
within-since w now (t ∷ ts) h = ground (arith, within-since w now ts h.1)

pub within≤since_now : (w now e : ℕ) (ts : List ℕ) → now ≤ e → within w e ts ≤ since w now ts
unfolding within since
within≤since_now w now e [] le = omega arith
within≤since_now w now e (t ∷ ts) le = ground (arith, within≤since_now w now e ts le)

pub since-keep :
    (w now e : ℕ) (ts : List ℕ) → now ≤ e → since w e (keep (in_window w now) ts) ≡ since w e ts
unfolding since
since-keep w now e [] le = refl
since-keep w now e (t ∷ ts) le = ground (arith, since-keep w now e ts le)

pub length-keep : (w now : ℕ) (ts : List ℕ) → length (keep (in_window w now) ts) ≡ since w now ts
unfolding since
length-keep w now [] = refl
length-keep w now (t ∷ ts) = ground (arith, length-keep w now ts)

pub since-snoc : (w e t : ℕ) (ts : List ℕ) → since w e (ts ++ (t ∷ [])) ≡ since w e (t ∷ ts)
unfolding since
since-snoc w e t [] = refl
since-snoc w e t (u ∷ ts) = ground (arith, since-snoc w e t ts)

pub since_gone :
    (w now e : ℕ) (ts : List ℕ) → now + w ≤ e → All (λ t. t ≤ now) ts → since w e ts ≡ 0
unfolding since
since_gone w now e [] le h = refl
since_gone w now e (t ∷ ts) le h = ground (arith, since_gone w now e ts le h.1)

pub All-later : {m n : ℕ} → m ≤ n → (ts : List ℕ) → All (λ t. t ≤ m) ts → All (λ t. t ≤ n) ts
All-later le [] h = tt
All-later le (t ∷ ts) h = (omega (arith, le, h.0), All-later le ts h.1)

pub key_iff : (j h : String) → (store_key j === store_key h) ≡ (j === h)
key_iff j h =
    let cancel =
      λ (e : store_key j ≡ store_key h). append_cancel "ratelimit:slidingwindow:" j h e in
    ground (
      arith,
      ===_iff j h,
      ===_iff (store_key j) (store_key h),
      cancel,
      ap store_key {x = j} {y = h},
    )

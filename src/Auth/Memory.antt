-- ===== src/Auth/Memory.antt =====
-- Counters in memory, always there: each number with the time at which it expires, if it does.
use mash_backend.Prelude.{
  ℕ, ◌+◌, ◌*◌, ◌≡◌, refl, ap, sym, ◌∙◌, inl, inr, String, Bool, true, Option, none, some,
  if◌then◌else◌, ltb, Bool-cases, ===_refl, string_eq, Map, get, put, remove, get-put, arith,
}
use mash_backend.RateLimit.Redis.{value}
use mash_backend.Auth.Quota.{Counters, Up, Calendar}

abbrev pub alive : ℕ → Option ℕ → Bool
alive now none = true
alive now (some e) = ltb now e

-- The number, 0 once it has expired.
abbrev pub number_of : ℕ → Option (ℕ × Option ℕ) → ℕ
number_of now none = 0
number_of now (some (n, e)) = if alive now e then n else 0

-- The expiry that an increment keeps.
abbrev pub expiry_of : ℕ → Option (ℕ × Option ℕ) → Option ℕ
expiry_of now none = none
expiry_of now (some (n, e)) = if alive now e then e else none

pub kept_alive :
    (now : ℕ) (o : Option (ℕ × Option ℕ)) (n : ℕ) → number_of now (some (n, expiry_of now o)) ≡ n
kept_alive now none n = refl
kept_alive now (some (m, none)) n = refl
kept_alive now (some (m, some e)) n = elim (Bool-cases (ltb now e)) [
  | inl h ↦ ground (arith, h)
  | inr h ↦ ground (arith, h)
]

get_own :
    (k : String) (v : ℕ × Option ℕ) (c : Map String (ℕ × Option ℕ)) → get k (put k v c) ≡ some v
get_own k v c = get-put k k v c ∙ rw (===_refl k) refl

abbrev pub added_to : Map String (ℕ × Option ℕ) → String → ℕ → ℕ → Map String (ℕ × Option ℕ) × ℕ
added_to c k by now =
    let n = number_of now (get k c) + by in (put k (n, expiry_of now (get k c)) c, n)

pub unwrap : {A : Type 0} {a b : A} → value a ≡ value b → a ≡ b
unwrap h = cc

pub held-added_to :
    (c : Map String (ℕ × Option ℕ)) (k : String) (now : ℕ)
    → number_of now (get k (added_to c k 1 now).0) ≡ number_of now (get k c) + 1
held-added_to c k now =
    ap (number_of now) (get_own k (number_of now (get k c) + 1, expiry_of now (get k c)) c)
    ∙ kept_alive now (get k c) (number_of now (get k c) + 1)

abbrev pub expiring : Map String (ℕ × Option ℕ) → String → ℕ → ℕ → Map String (ℕ × Option ℕ)
expiring c k seconds now = put k (number_of now (get k c), some (now + seconds * 1000)) c

pub held-expiring :
    (c : Map String (ℕ × Option ℕ)) (k : String) (seconds now later : ℕ)
    → number_of later (get k (expiring c k seconds now))
      ≡ (if ltb later (now + seconds * 1000) then number_of now (get k c) else 0)
held-expiring c k seconds now later =
    ap (number_of later) (get_own k (number_of now (get k c), some (now + seconds * 1000)) c)

abbrev pub memory : Counters
memory = record {
  Conn = Map String (ℕ × Option ℕ);
  ready = λ c. true;
  held = λ c k now. number_of now (get k c);
  incr = λ c k now. value (added_to c k 1 now);
  incrby = λ c k n now. value (added_to c k n now);
  expire = λ c k seconds now. value (expiring c k seconds now);
  del = λ c k. value (remove k c);
  held-incr = λ {c} {c'} {k} {n} {now} up h.
      let it = unwrap h in
      let sum = sym (ap (λ x. x.1) it) in
      (sum, ap (λ x. number_of now (get k x.0)) (sym it) ∙ held-added_to c k now ∙ sym sum);
  held-expire = λ {c} {c'} {k} {seconds} {now} up h later after.
      ap (λ x. number_of later (get k x)) (sym (unwrap h)) ∙ held-expiring c k seconds now later;
}

pub memory-Up : Up memory
memory-Up = record {
  connected = λ c. refl;
  counts = λ c k now. ((added_to c k 1 now).0, (added_to c k 1 now).1, refl);
  expires = λ c k seconds now. (expiring c k seconds now, refl);
}

-- January 1970.
abbrev pub january : Calendar
january = record {
  date_of = λ t. if ltb t 86400000 then "1970-01-01" else "1970-01-02";
  month_of = λ t. "1970-01";
  next_month_start = λ t. 2678400000;
}

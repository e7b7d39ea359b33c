-- ===== src/RateLimit/Memory.antt =====
-- A Redis in memory, always connected: each value with the time at which it expires.
use mash_backend.Prelude.{
  ℕ, suc, ◌+◌, ◌*◌, ◌^◌, ◌≡◌, ◌≢◌, refl, ap, sym, ◌∙◌, String, Bool, true, false, Option, none,
  some, if◌then◌else◌, ◌===◌, ===_refl, string_eq, ltb, Map, get, put, remove, get-put, get-remove,
}
use mash_backend.RateLimit.Redis.{Client, Reply, value, failed, Up}
use mash_backend.RateLimit.FixedWindow.{Json, number, text, Counters}

-- The value, if it has not expired.
abbrev pub live : {V : Type 0} → ℕ → Option (V × ℕ) → Option V
live now none = none
live now (some (v, expiry)) = if ltb now expiry then some v else none

pub live-if :
    {V : Type 0} (b : Bool) (now : ℕ) (x y : Option (V × ℕ))
    → value (live now (if b then x else y)) ≡ (if b then value (live now x) else value (live now y))
live-if true now x y = refl
live-if false now x y = refl

pub read-put :
    {V : Type 0} (c : Map String (V × ℕ)) (k : String) (v : V) (expiry : ℕ) (j : String) (later : ℕ)
    → value (live later (get j (put k (v, expiry) c))) ≡ (
        if k === j
        then value (if ltb later expiry then some v else none)
        else value (live later (get j c)))
read-put c k v expiry j later =
    ap (λ x. value (live later x)) (get-put j k (v, expiry) c)
    ∙ live-if (k === j) later (some (v, expiry)) (get j c)

pub read-remove :
    {V : Type 0} (c : Map String (V × ℕ)) (k j : String) (later : ℕ)
    → value (live later (get j (remove k c)))
      ≡ (if k === j then value none else value (live later (get j c)))
read-remove c k j later =
    ap (λ x. value (live later x)) (get-remove j k c) ∙ live-if (k === j) later none (get j c)

abbrev pub unwrap : {A : Type 0} → A → Reply A → A
unwrap a (value b) = b
unwrap a failed = a

abbrev pub memory : (V : Type 0) → Client V
memory V = record {
  Conn = Map String (V × ℕ);
  ready = λ c. true;
  read = λ c k now. value (live now (get k c));
  setex = λ c k v ttl now. value (put k (v, now + ttl * 1000) c);
  del = λ c k. value (remove k c);
  read-setex = λ {c} {c'} {k} {v} {ttl} {now} up wrote j later.
      ap (λ x. value (live later (get j x))) {x = c'} {y = put k (v, now + ttl * 1000) c}
        (sym (ap (unwrap c) wrote))
      ∙ read-put c k v (now + ttl * 1000) j later;
  read-del = λ {c} {c'} {k} up gone j later.
      ap (λ x. value (live later (get j x))) {x = c'} {y = remove k c} (sym (ap (unwrap c) gone))
      ∙ read-remove c k j later;
}

pub memory-Up : (V : Type 0) → Up (memory V)
memory-Up V = record {
  connected = λ c. refl;
  writes = λ c k v ttl now. (put k (v, now + ttl * 1000) c, refl);
}

abbrev pub no_expiry : ℕ
no_expiry = 10 ^ 16

-- `INCR` of what is stored, by what is live of it.
unfoldable pub incremented :
    Map String (Json × ℕ) → String → Option Json → Reply (Map String (Json × ℕ) × ℕ)
incremented c k none = value (put k (number 1, no_expiry) c, 1)
incremented c k (some (number m)) = value (put k (number (suc m), no_expiry) c, suc m)
incremented c k (some (text t)) = failed

unfoldable pub expiring :
    Map String (Json × ℕ) → String → ℕ → Option Json → Reply (Map String (Json × ℕ))
expiring c k expiry none = failed
expiring c k expiry (some v) = value (put k (v, expiry) c)

some_if : {v w : Json} (b : Bool) → value (if b then some v else none) ≡ value (some w) → v ≡ w
some_if true h = cc
some_if false h = cc

-- What is read after a write is what was written.
read-written :
    (c : Map String (Json × ℕ)) (k : String) (v w : Json) (expiry later : ℕ)
    → value (live later (get k (put k (v, expiry) c))) ≡ value (some w)
    → v ≡ w
read-written c k v w expiry later h =
    some_if (ltb later expiry) (sym (read-put c k v expiry k later ∙ rw (===_refl k) refl) ∙ h)

pub incremented-text :
    (c : Map String (Json × ℕ)) (k : String) (o : Option Json) {c' : Map String (Json × ℕ)} {n : ℕ}
    → incremented c k o ≡ value (c', n)
    → (later : ℕ) (t : String) → value (live later (get k c')) ≢ value (some (text t))
unfolding incremented
incremented-text c k none {c'} {n} e later t h =
    let same : c' ≡ put k (number 1, no_expiry) c = cc in
    let n≡t : number 1 ≡ text t =
      read-written c k (number 1) (text t) no_expiry later
        (ap (λ x. value (live later (get k x))) (sym same) ∙ h) in
    cc
incremented-text c k (some (number m)) {c'} {n} e later t h =
    let same : c' ≡ put k (number (suc m), no_expiry) c = cc in
    let n≡t : number (suc m) ≡ text t =
      read-written c k (number (suc m)) (text t) no_expiry later
        (ap (λ x. value (live later (get k x))) (sym same) ∙ h) in
    cc
incremented-text c k (some (text u)) {c'} {n} e later t h = cc

pub expiring-text :
    (c : Map String (Json × ℕ)) (k : String) (expiry : ℕ) (o : Option Json)
    {c' : Map String (Json × ℕ)}
    → expiring c k expiry o ≡ value c'
    → (later : ℕ) (t : String) → value (live later (get k c')) ≡ value (some (text t))
    → value o ≡ value (some (text t))
unfolding expiring
expiring-text c k expiry none {c'} e later t h = cc
expiring-text c k expiry (some v) {c'} e later t h =
    let same : c' ≡ put k (v, expiry) c = cc in
    ap (λ x. value (some x))
      (read-written c k v (text t) expiry later
        (ap (λ x. value (live later (get k x))) (sym same) ∙ h))

abbrev pub counters : Counters (memory Json)
counters = record {
  incr = λ c k now. incremented c k (live now (get k c));
  expire = λ c k s now. expiring c k (now + s * 1000) (live now (get k c));
  read-incr =
      λ {c} {c'} {k} {n} {now} e later t. incremented-text c k (live now (get k c)) e later t;
  read-expire = λ {c} {c'} {k} {s} {now} e later t.
      expiring-text c k (now + s * 1000) (live now (get k c)) e later t;
}

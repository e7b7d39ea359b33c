-- ===== src/RateLimit/FixedWindow.antt =====
-- src/modules/gateway/rate-limiting/strategies/fixed-window.strategy.ts: a counter that expires. The answer is modelled by whether the
-- request is allowed. The operations of src/database/redis.service.ts give a default where the client
-- throws, so the strategy's own `catch` is never reached.
use Prim.Native.String.{◌++◌ as text_append}
use mash_backend.Prelude.{
  ℕ, ◌+◌, ◌/◌, ◌<◌, ◌≡◌, ◌≢◌, refl, ap, inl, inr, String, Bool, true, false, Option, none, some,
  List, [], ◌∷◌, arith, if◌then◌else◌, ◌===◌, string_eq, ◌==◌, Bool-cases, All,
}
use mash_backend.Prelude.Int.{ℤ, pos, ltb_ℤ}
use mash_backend.Prelude.Texts.{codes, parse_int}
use mash_backend.RateLimit.Types.{RateLimitConfig}
use mash_backend.RateLimit.Redis.{Client, Reply, value, failed, or_null, get, delete}

-- What `JSON.parse` makes of a stored text, as far as the strategy tells values apart: a counter's
-- digits are a number.
pub data Json : Type 0 where
  number : ℕ → Json
  text : String → Json

-- The client's counters. After `INCR` the key holds a number until it expires, and after `EXPIRE` it
-- holds what it held.
pub record Counters (r : Client Json) : Type 1 where
  pub incr : r.Conn → String → ℕ → Reply (r.Conn × ℕ)
  pub expire : r.Conn → String → ℕ → ℕ → Reply r.Conn
  pub read-incr :
      {c c' : r.Conn} {k : String} {n now : ℕ}
      → incr c k now ≡ value (c', n)
      → (later : ℕ) (t : String) → r.read c' k later ≢ value (some (text t))
  pub read-expire :
      {c c' : r.Conn} {k : String} {s now : ℕ}
      → expire c k s now ≡ value c'
      → (later : ℕ) (t : String) → r.read c' k later ≡ value (some (text t))
      → r.read c k now ≡ value (some (text t))

abbrev pub store_key : String → String
store_key k = text_append "ratelimit:fixedwindow:" k

-- `countStr && typeof countStr === 'string' ? parseInt(countStr, 10) : 0`. `none` is `NaN`.
abbrev pub current_count : Option Json → Option ℤ
current_count none = some (pos 0)
current_count (some (number n)) = some (pos 0)
current_count (some (text t)) = if t === "" then some (pos 0) else parse_int (codes t)

-- `currentCount < limit`.
abbrev pub below : Option ℤ → ℕ → Bool
below none limit = false
below (some n) limit = ltb_ℤ n (pos limit)

module _ (r : Client Json) (n : Counters r) where
  open r use {Conn, ready, read}
  open n use {incr, expire, read-incr, read-expire}

  abbrev pub counted : Conn → Reply (Conn × ℕ) → Conn × ℕ
  counted c (value p) = p
  counted c failed = (c, 0)

  -- `increment`.
  unfoldable pub increment_count : Conn → String → ℕ → Conn × ℕ
  increment_count c k now = if ready c then counted c (incr c k now) else (c, 0)

  abbrev pub or_same : Conn → Reply Conn → Conn
  or_same c (value c') = c'
  or_same c failed = c

  -- `setExpiration`.
  unfoldable pub set_expiration : Conn → String → ℕ → ℕ → Conn
  set_expiration c k seconds now = if ready c then or_same c (expire c k seconds now) else c

  -- `Math.ceil(windowMs / 1000)`.
  abbrev pub seconds_of : RateLimitConfig → ℕ
  seconds_of cfg = (cfg.window_ms + 999) / 1000

  unfoldable pub check_limit : Conn → String → RateLimitConfig → ℕ → Conn × Bool
  unfolding get increment_count set_expiration
  check_limit c k cfg now =
      let allowed = below (current_count (get r c (store_key k) now)) cfg.limit in
      let (c', count) = increment_count c (store_key k) now in
      if allowed
      then ((if count == 1 then set_expiration c' (store_key k) (seconds_of cfg) now else c'), true)
      else (c, false)

  unfoldable pub reset : Conn → String → Conn
  unfolding delete
  reset c k = (delete r c (store_key k)).0

  -- No text is stored under the key: the state before the first call, and after each.
  abbrev pub Counting : Conn → String → Type 0
  Counting c k = (now : ℕ) (t : String) → get r c (store_key k) now ≢ some (text t)

  -- The answers of the calls at those times.
  unfoldable pub answers : Conn → String → RateLimitConfig → List ℕ → List Bool
  unfolding check_limit
  answers c k cfg [] = []
  answers c k cfg (now ∷ times) =
      let (c', a) = check_limit c k cfg now in a ∷ answers c' k cfg times

  get-read :
      (c : Conn) (k : String) (now : ℕ) (t : String)
      → get r c k now ≡ some (text t)
      → (ready c ≡ true) × (read c k now ≡ value (some (text t)))
  unfolding get
  get-read c k now t h = go (ready c) (read c k now) h
    where
      go :
          (b : Bool) (v : Reply (Option Json))
          → (if b then or_null v else none) ≡ some (text t)
          → (b ≡ true) × (v ≡ value (some (text t)))
      go true (value v) e = (refl, ap value e)
      go true failed e = cc
      go false v e = cc

  read-get :
      (c : Conn) (k : String) (now : ℕ) (t : String)
      → ready c ≡ true
      → read c k now ≡ value (some (text t))
      → get r c k now ≡ some (text t)
  unfolding get
  read-get c k now t up there = rw (up, there) refl

  expire-Counting :
      (c : Conn) (k : String) (s now : ℕ)
      → Counting c k
      → Counting (set_expiration c (store_key k) s now) k
  unfolding set_expiration
  expire-Counting c k s now h = elim (Bool-cases (ready c)) [
    | inl up ↦ rw up (go (expire c (store_key k) s now) refl up)
    | inr down ↦ rw down h
  ]
    where
      go :
          (e : Reply Conn)
          → expire c (store_key k) s now ≡ e
          → ready c ≡ true
          → Counting (or_same c e) k
      go failed p up later t there = h later t there
      go (value c') p up later t there = h now t (
          read-get c (store_key k) now t up
            (read-expire p later t (get-read c' (store_key k) later t there).1))

  increment-Counting :
      (c : Conn) (k : String) (now : ℕ)
      → Counting c k
      → Counting (increment_count c (store_key k) now).0 k
  unfolding increment_count
  increment-Counting c k now h = elim (Bool-cases (ready c)) [
    | inl up ↦ rw up (go (incr c (store_key k) now) refl)
    | inr down ↦ rw down h
  ]
    where
      go : (e : Reply (Conn × ℕ)) → incr c (store_key k) now ≡ e → Counting (counted c e).0 k
      go failed p later t there = h later t there
      go (value (c', m)) p later t there =
          read-incr p later t (get-read c' (store_key k) later t there).1

  below_limit :
      (v : Option Json) (limit : ℕ)
      → 0 < limit
      → ((t : String) → v ≢ some (text t))
      → below (current_count v) limit ≡ true
  below_limit none limit l h = ground arith
  below_limit (some (number m)) limit l h = ground arith
  below_limit (some (text t)) limit l h = absurd (h t refl)

  check_limit-Counting :
      (c : Conn) (k : String) (cfg : RateLimitConfig) (now : ℕ)
      → 0 < cfg.limit
      → Counting c k
      → ((check_limit c k cfg now).1 ≡ true) × Counting (check_limit c k cfg now).0 k
  unfolding check_limit
  check_limit-Counting c k cfg now l h =
      let yes' = below_limit (get r c (store_key k) now) cfg.limit l (h now) in
      let (c', count) = increment_count c (store_key k) now in
      let next = increment-Counting c k now h in
      (
        rw (check_limit, yes') refl,
        rw (check_limit, yes')
            (elim (Bool-cases (count == 1)) [
              | inl first ↦ rw first (expire-Counting c' k (seconds_of cfg) now next)
              | inr later ↦ rw later next
            ]),
      )

  -- The counter is never read: a number is not a text, and counts as zero. With a limit above zero, and
  -- no text stored under the key, every call of every sequence is allowed.
  pub answers-All :
      (c : Conn) (k : String) (cfg : RateLimitConfig) (times : List ℕ)
      → 0 < cfg.limit
      → Counting c k
      → All (λ a. a ≡ true) (answers c k cfg times)
  unfolding answers
  answers-All c k cfg [] l h = tt
  answers-All c k cfg (now ∷ times) l h =
      let (yes', next) = check_limit-Counting c k cfg now l h in
      (yes', answers-All (check_limit c k cfg now).0 k cfg times l next)

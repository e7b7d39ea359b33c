-- ===== src/RateLimit/Redis.antt =====
-- src/database/redis.service.ts: the operations that the rate limiting strategies call, over the ioredis
-- client, which is not part of the repository. A call of the client gives a value or throws. Values
-- stand for their JSON texts. Times are in milliseconds, an expiry is in seconds.
use mash_backend.Prelude.{
  ℕ, ◌+◌, ◌*◌, ◌≡◌, refl, inl, inr, String, Bool, true, false, Option, none, some, if◌then◌else◌,
  ◌===◌, string_eq, ltb, Bool-cases,
}

pub data Reply (A : Type 0) : Type 0 where
  value : A → Reply A
  failed : Reply A

-- A connected client answers with what was last written, until it expires.
pub record Client (V : Type 0) : Type 1 where
  pub Conn : Type 0
  -- Whether the client is there, connected and not being shut down.
  pub ready : Conn → Bool
  pub read : Conn → String → ℕ → Reply (Option V)
  pub setex : Conn → String → V → ℕ → ℕ → Reply Conn
  pub del : Conn → String → Reply Conn
  pub read-setex :
      {c c' : Conn} {k : String} {v : V} {ttl now : ℕ}
      → ready c ≡ true
      → setex c k v ttl now ≡ value c'
      → (j : String) (later : ℕ)
      → read c' j later ≡ (
          if k === j
          then value (if ltb later (now + ttl * 1000) then some v else none)
          else read c j later)
  pub read-del :
      {c c' : Conn} {k : String}
      → ready c ≡ true
      → del c k ≡ value c'
      → (j : String) (later : ℕ)
      → read c' j later ≡ (if k === j then value none else read c j later)

-- `get`: a value, or `null` where there is none, where Redis is not there and where it throws.
abbrev pub or_null : {V : Type 0} → Reply (Option V) → Option V
or_null (value v) = v
or_null failed = none

module _ {V : Type 0} (r : Client V) where
  open r use {Conn, ready, read, setex, del}

  unfoldable pub get : Conn → String → ℕ → Option V
  get c k now = if ready c then or_null (read c k now) else none

  -- The connection after a write, and whether the write took place.
  abbrev pub done : Conn → Reply Conn → Conn × Bool
  done c (value c') = (c', true)
  done c failed = (c, false)

  unfoldable pub set : Conn → String → V → ℕ → ℕ → Conn × Bool
  set c k v ttl now = if ready c then done c (setex c k v ttl now) else (c, false)

  unfoldable pub delete : Conn → String → Conn × Bool
  delete c k = if ready c then done c (del c k) else (c, false)

-- Redis is up: the client stays connected, and no write throws.
pub record Up {V : Type 0} (r : Client V) : Type 0 where
  pub connected : (c : r.Conn) → r.ready c ≡ true
  pub writes :
      (c : r.Conn) (k : String) (v : V) (ttl now : ℕ)
      → (c' : r.Conn) × (r.setex c k v ttl now ≡ value c')

pub get-set :
    {V : Type 0} (r : Client V)
    → Up r
    → (c : r.Conn) (k : String) (v : V) (ttl now : ℕ) (j : String) (later : ℕ)
    → get r (set r c k v ttl now).0 j later
      ≡ (if k === j then if ltb later (now + ttl * 1000) then some v else none else get r c j later)
unfolding get set
get-set r up c k v ttl now j later =
    let (c', wrote) = up.writes c k v ttl now in
    let found = r.read-setex (up.connected c) wrote j later in
    elim (Bool-cases (k === j)) [
      | inl e ↦ rw (up.connected c, wrote, get, up.connected c', found, e) refl
      | inr e ↦ rw (up.connected c, wrote, get, up.connected c', found, e) refl
    ]

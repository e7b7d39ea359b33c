-- ===== src/Gateway/Balancer/Address.antt =====
-- What hashing the client's address does (load-balancer.service.ts, `ipHash`).
use mash_backend.Prelude.{
  ℕ, ◌+◌, ◌%◌, ◌<◌, ◌≡◌, refl, inl, inr, String, false, Option, none, some, List, [], ◌∷◌, arith,
  ◌==◌, ◌===◌, string_eq, length, get_elem?_total, All, Any, Bool-cases,
}
use mash_backend.Prelude.Int.{ℤ, pos, ◌+ℤ◌}
use mash_backend.Prelude.Texts.{codes, split, parse_int}
use mash_backend.Gateway.Types.{LoadBalancingStrategy}
use mash_backend.Gateway.Balancer.{
  found, type_error, LoadBalancer, get_instances, healthy_instances, hash_octets, hash_ip, at_hash,
  ip_hash, add_number, dispatch, get_next_instance,
}

hash_octets-none : (os : List (List ℕ)) → hash_octets none os ≡ none
unfolding hash_octets
hash_octets-none [] = refl
hash_octets-none (o ∷ os) = hash_octets-none os

hash_octets-NaN :
    (acc : Option ℤ) (os : List (List ℕ))
    → Any (λ o. parse_int o ≡ none) os
    → hash_octets acc os ≡ none
unfolding hash_octets
hash_octets-NaN acc [] h = elim h [ ]
hash_octets-NaN none (o ∷ os) h = hash_octets-none os
hash_octets-NaN (some a) (o ∷ os) (inl e) = rw e (hash_octets-none os)
hash_octets-NaN (some a) (o ∷ os) (inr h) = hash_octets-NaN (add_number (some a) (parse_int o)) os h

-- The part begins with a number that is not negative.
abbrev pub IsOctet : List ℕ → Type 0
IsOctet o = (n : ℕ) × (parse_int o ≡ some (pos n))

pos-add : (a n : ℕ) → pos a +ℤ pos n ≡ pos (a + n)
unfolding ◌+ℤ◌
pos-add a n = ground arith

hash_octets-pos :
    (a : ℕ) (os : List (List ℕ))
    → All IsOctet os
    → (n : ℕ) × (hash_octets (some (pos a)) os ≡ some (pos n))
unfolding hash_octets
hash_octets-pos a [] h = (a, refl)
hash_octets-pos a (o ∷ os) ((n, e), h) = rw (e, pos-add a n) (hash_octets-pos (a + n) os h)

-- An address with a part that `parseInt` takes for no number makes IP_HASH throw although there are healthy instances.
pub get_next_instance-NaN :
    (b : LoadBalancer) (name ip : String)
    → (ip === "") ≡ false
    → Any (λ o. parse_int o ≡ none) (split b'.' (codes ip))
    → 0 < length (healthy_instances (get_instances b name))
    → (get_next_instance b name LoadBalancingStrategy.ip_hash (some ip)).1 ≡ type_error
unfolding get_next_instance dispatch ip_hash hash_ip at_hash
get_next_instance-NaN b name ip h nan some_healthy =
    let is = healthy_instances (get_instances b name) in
    let n : (length is == 0) ≡ false = ground arith in
    rw (n, h, hash_octets-NaN (some (pos 0)) (split b'.' (codes ip)) nan)

-- An address whose parts all begin with numbers that are not negative, as a dotted IPv4 address does, is
-- served by IP_HASH whenever there is a healthy instance, and the call changes nothing.
pub get_next_instance-ip_hash :
    (b : LoadBalancer) (name ip : String)
    → All IsOctet (split b'.' (codes ip))
    → 0 < length (healthy_instances (get_instances b name))
    → (u : String) × (get_next_instance b name LoadBalancingStrategy.ip_hash (some ip)
        ≡ (b, found u))
unfolding get_next_instance dispatch ip_hash hash_ip at_hash
get_next_instance-ip_hash b name ip octets some_healthy =
    let is = healthy_instances (get_instances b name) in
    let n : (length is == 0) ≡ false = ground arith in
    let (h, e) = hash_octets-pos 0 (split b'.' (codes ip)) octets in
    let (i, f) = get_elem?_total is 0 some_healthy in
    let (j, g) = get_elem?_total is (h % length is) (grind arith) in
    elim (Bool-cases (ip === "")) [
      | inl t ↦ (i.url, rw (n, t, f))
      | inr t ↦ (j.url, rw (n, t, e, g))
    ]

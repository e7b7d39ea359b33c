-- ===== src/Gateway/Balancer/Safety.antt =====
-- Which instances the balancer may answer (load-balancer.service.ts, `getNextInstance`).
use mash_backend.Prelude.{
  ℕ, zero, suc, ◌+◌, ◌%◌, ◌<◌, ◌≡◌, ◌≢◌, refl, ◌↔◌, inl, inr, String, true, Option, none, some,
  List, [], ◌∷◌, arith, ltb, leb, ◌==◌, ◌===◌, string_eq, length, get_elem?, get_elem?_total, Any,
  Bool-cases, Option-cases,
}
use mash_backend.Prelude.Int.{ℤ, pos, negsuc}
use mash_backend.Gateway.Types.{LoadBalancingStrategy, ServiceInstance}
use mash_backend.Gateway.Balancer.{
  null, found, type_error, LoadBalancer, url_of, get_instances, healthy_instances, weight_of, least,
  pick_weighted, total_weight, or_first, current_index, at_hash, hash_ip, ip_hash, insert_by_time,
  sort_by_time, dispatch, get_next_instance,
}

-- Some instance of the list has the URL.
abbrev pub Offers : String → List ServiceInstance → Type 0
Offers u is = Any (λ i. i.url ≡ u) is

get_elem?-Offers :
    (is : List ServiceInstance) (k : ℕ) {u : String}
    → url_of (get_elem? is k) ≡ found u
    → Offers u is
get_elem?-Offers [] k h = cc
get_elem?-Offers (i ∷ is) zero h = inl (ground arith)
get_elem?-Offers (i ∷ is) (suc k) h = inr (get_elem?-Offers is k h)

skip :
    (m c : ServiceInstance) (is : List ServiceInstance) {u : String}
    → Offers u (m ∷ is)
    → Offers u (m ∷ c ∷ is)
skip m c is (inl e) = inl e
skip m c is (inr h) = inr (inr h)

least-Offers :
    (m : ServiceInstance) (is : List ServiceInstance) {u : String}
    → (least m is).url ≡ u
    → Offers u (m ∷ is)
unfolding least
least-Offers m [] h = inl h
least-Offers m (c ∷ is) h = elim (Bool-cases (ltb c.active_connections m.active_connections)) [
  | inl e ↦ inr (least-Offers c is (rw (e, least) at h))
  | inr e ↦ skip m c is (least-Offers m is (rw (e, least) at h))
]

pick_weighted-Offers :
    (p s : ℕ) (is : List ServiceInstance) {u : String}
    → url_of (pick_weighted p s is) ≡ found u
    → Offers u is
unfolding pick_weighted
pick_weighted-Offers p s [] h = cc
pick_weighted-Offers p s (j ∷ is) h = elim (Bool-cases (ltb p (s + weight_of j))) [
  | inl e ↦ inl (ground arith)
  | inr e ↦ inr (pick_weighted-Offers p (s + weight_of j) is (rw (e, pick_weighted) at h))
]

or_first-Offers :
    (p s : ℕ) (is : List ServiceInstance) {u : String}
    → url_of (or_first (pick_weighted p s is) is) ≡ found u
    → Offers u is
or_first-Offers p s is h = elim (Option-cases (pick_weighted p s is)) [
  | inl e ↦ get_elem?-Offers is 0 (rw e at h)
  | inr (i, e) ↦ pick_weighted-Offers p s is (rw e (rw e at h))
]

at_hash-Offers :
    (o : Option ℤ) (is : List ServiceInstance) {u : String}
    → url_of (at_hash o is) ≡ found u
    → Offers u is
unfolding at_hash
at_hash-Offers none is h = cc
at_hash-Offers (some (pos n)) is h = get_elem?-Offers is _ h
at_hash-Offers (some (negsuc n)) is h = elim (Bool-cases (suc n % length is == 0)) [
  | inl e ↦ get_elem?-Offers is 0 (rw (e, at_hash) at h)
  | inr e ↦ ground arith
]

ip_hash-Offers :
    (ip : Option String) (is : List ServiceInstance) {u : String}
    → ip_hash ip is ≡ found u
    → Offers u is
unfolding ip_hash
ip_hash-Offers none is h = get_elem?-Offers is 0 h
ip_hash-Offers (some ip) is h = elim (Bool-cases (ip === "")) [
  | inl e ↦ get_elem?-Offers is 0 (rw (e, ip_hash) at h)
  | inr e ↦ at_hash-Offers (hash_ip ip) is (rw (e, ip_hash) at h)
]

module _ (P : ServiceInstance → Type 0) where
  later :
      (i j : ServiceInstance) (is sorted : List ServiceInstance)
      → (Any P sorted → Any P (i ∷ is))
      → Any P (j ∷ sorted)
      → Any P (i ∷ j ∷ is)
  later i j is sorted f (inl e) = inr (inl e)
  later i j is sorted f (inr p) = beside (f p)
    where
      beside : Any P (i ∷ is) → Any P (i ∷ j ∷ is)
      beside (inl e) = inl e
      beside (inr q) = inr (inr q)

  insert_by_time-Any :
      (i : ServiceInstance) (is : List ServiceInstance)
      → Any P (insert_by_time i is)
      → Any P (i ∷ is)
  unfolding insert_by_time
  insert_by_time-Any i [] h = h
  insert_by_time-Any i (j ∷ is) h = elim (Bool-cases (leb i.response_time j.response_time)) [
    | inl e ↦ rw (e, insert_by_time) at h
    | inr e ↦ later i j is _ (insert_by_time-Any i is) (rw (e, insert_by_time) at h)
  ]

  sorted_tail :
      (i : ServiceInstance) (is sorted : List ServiceInstance)
      → (Any P sorted → Any P is)
      → Any P (i ∷ sorted)
      → Any P (i ∷ is)
  sorted_tail i is sorted f (inl e) = inl e
  sorted_tail i is sorted f (inr p) = inr (f p)

  pub sort_by_time-Any : (is : List ServiceInstance) → Any P (sort_by_time is) → Any P is
  unfolding sort_by_time
  sort_by_time-Any [] h = h
  sort_by_time-Any (i ∷ is) h =
      sorted_tail i is _ (sort_by_time-Any is) (insert_by_time-Any i (sort_by_time is) h)

dispatch-Offers :
    (strategy : LoadBalancingStrategy) (b : LoadBalancer) (name : String) (ip : Option String)
    (is : List ServiceInstance) {u : String}
    → (dispatch strategy b name ip is).1 ≡ found u
    → Offers u is
unfolding dispatch
dispatch-Offers LoadBalancingStrategy.round_robin b name ip is h = get_elem?-Offers is _ h
dispatch-Offers LoadBalancingStrategy.least_connections b name ip [] h = cc
dispatch-Offers LoadBalancingStrategy.least_connections b name ip (i ∷ is) h =
    least-Offers i is (ground arith)
dispatch-Offers LoadBalancingStrategy.weighted_round_robin b name ip is h = or_first-Offers _ 0 is h
dispatch-Offers LoadBalancingStrategy.ip_hash b name ip is h = ip_hash-Offers ip is h
dispatch-Offers LoadBalancingStrategy.health_based b name ip is {u} h =
    sort_by_time-Any (λ i. i.url ≡ u) is (get_elem?-Offers (sort_by_time is) 0 h)

healthy-Offers :
    (is : List ServiceInstance) (u : String)
    → Offers u (healthy_instances is)
    → Any (λ i. (i.healthy ≡ true) × (i.url ≡ u)) is
healthy-Offers [] u h = elim h [ ]
healthy-Offers (i ∷ is) u h = elim (Bool-cases i.healthy) [
  | inl e ↦ ground (arith, healthy-Offers is u)
  | inr e ↦ inr (healthy-Offers is u (ground arith))
]

-- Whatever the strategy and the client, a URL that `getNextInstance` answers is that of an instance
-- of the service that is marked healthy.
pub get_next_instance-IsHealthy :
    (b : LoadBalancer) (name : String) (strategy : LoadBalancingStrategy) (ip : Option String)
    {u : String}
    → (get_next_instance b name strategy ip).1 ≡ found u
    → Any (λ i. (i.healthy ≡ true) × (i.url ≡ u)) (get_instances b name)
unfolding get_next_instance
get_next_instance-IsHealthy b name strategy ip {u} h =
    let is = healthy_instances (get_instances b name) in
    elim (Bool-cases (length is == 0)) [
      | inl e ↦ ground arith
      | inr e ↦
          healthy-Offers (get_instances b name) u
            (dispatch-Offers strategy b name ip is (rw (e, get_next_instance) at h))
    ]

url_of_total :
    (is : List ServiceInstance) (k : ℕ)
    → k < length is
    → (u : String) × (url_of (get_elem? is k) ≡ found u)
url_of_total is k h = let (i, e) = get_elem?_total is k h in (i.url, rw e)

length-insert_by_time :
    (i : ServiceInstance) (is : List ServiceInstance)
    → length (insert_by_time i is) ≡ suc (length is)
unfolding insert_by_time
length-insert_by_time i [] = refl
length-insert_by_time i (j ∷ is) = ground (arith, length-insert_by_time i is)

sort_by_time_total : (is : List ServiceInstance) → 0 < length is → 0 < length (sort_by_time is)
unfolding sort_by_time
sort_by_time_total [] h = h
sort_by_time_total (i ∷ is) h = omega (arith, length-insert_by_time i (sort_by_time is))

dispatch_total :
    (strategy : LoadBalancingStrategy) (b : LoadBalancer) (name : String) (ip : Option String)
    (is : List ServiceInstance)
    → strategy ≢ LoadBalancingStrategy.ip_hash
    → 0 < length is
    → (u : String) × ((dispatch strategy b name ip is).1 ≡ found u)
unfolding dispatch
dispatch_total LoadBalancingStrategy.round_robin b name ip is s h =
    url_of_total is (current_index b name % length is) (grind arith)
dispatch_total LoadBalancingStrategy.least_connections b name ip [] s h = absurd (omega arith)
dispatch_total LoadBalancingStrategy.least_connections b name ip (i ∷ is) s h = (_, refl)
dispatch_total LoadBalancingStrategy.weighted_round_robin b name ip is s h =
    elim (Option-cases (pick_weighted (current_index b name % total_weight is) 0 is)) [
      | inl e ↦ rw e (url_of_total is 0 h)
      | inr (i, e) ↦ (i.url, rw e)
    ]
dispatch_total LoadBalancingStrategy.ip_hash b name ip is s h = absurd (s refl)
dispatch_total LoadBalancingStrategy.health_based b name ip is s h =
    url_of_total (sort_by_time is) 0 (sort_by_time_total is h)

-- For every strategy but IP_HASH the call never throws, and it answers `null` exactly when no instance
-- of the service is healthy.
pub get_next_instance-null :
    (b : LoadBalancer) (name : String) (strategy : LoadBalancingStrategy) (ip : Option String)
    → strategy ≢ LoadBalancingStrategy.ip_hash
    → ((get_next_instance b name strategy ip).1 ≢ type_error)
      × (((get_next_instance b name strategy ip).1 ≡ null)
          ↔ (length (healthy_instances (get_instances b name)) ≡ 0))
unfolding get_next_instance
get_next_instance-null b name strategy ip s =
    let is = healthy_instances (get_instances b name) in
    elim (Bool-cases (length is == 0)) [
      | inl e ↦ ground arith
      | inr e ↦ let (u, f) = dispatch_total strategy b name ip is s (ground arith) in ground arith
    ]

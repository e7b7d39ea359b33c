-- ===== src/Gateway/Balancer/Choice.antt =====
-- Which instance the two measuring strategies choose (load-balancer.service.ts, `leastConnections`
-- and `healthBased`).
use mathlib.Core.Path.{subst}
use mash_backend.Prelude.{
  ℕ, ◌≤◌, ◌≡◌, refl, sym, inl, inr, String, Option, some, List, [], ◌∷◌, arith, ltb, leb, ◌==◌,
  string_eq, length, get_elem?, All, Any, Bool-cases, Option-cases,
}
use mash_backend.Gateway.Types.{LoadBalancingStrategy, ServiceInstance}
use mash_backend.Gateway.Balancer.{
  found, LoadBalancer, get_instances, healthy_instances, least, least_connections, insert_by_time,
  sort_by_time, health_based, get_next_instance,
}
use mash_backend.Gateway.Balancer.Safety.{sort_by_time-Any}

Any-map :
    {P Q : ServiceInstance → Type 0} (is : List ServiceInstance)
    → ((i : ServiceInstance) → P i → Q i)
    → Any P is
    → Any Q is
Any-map (i ∷ is) f (inl p) = inl (f i p)
Any-map (i ∷ is) f (inr h) = inr (Any-map is f h)
Any-map [] f h = elim h [ ]

least_min :
    (m : ServiceInstance) (is : List ServiceInstance) (n : ℕ)
    → n ≡ (least m is).active_connections
    → (n ≤ m.active_connections) × All (λ i. n ≤ i.active_connections) is
unfolding least
least_min m [] n h = (omega arith, tt)
least_min m (c ∷ is) n h = elim (Bool-cases (ltb c.active_connections m.active_connections)) [
  | inl e ↦ let (a, b) = least_min c is n (rw (e, least) at h) in (ground (arith, a), (a, b))
  | inr e ↦ let (a, b) = least_min m is n (rw (e, least) at h) in (a, (ground (arith, a), b))
]

least_mem :
    (m : ServiceInstance) (is : List ServiceInstance) (l : ServiceInstance)
    → l ≡ least m is
    → Any (λ i. i ≡ l) (m ∷ is)
unfolding least
least_mem m [] l h = inl (sym h)
least_mem m (c ∷ is) l h = elim (Bool-cases (ltb c.active_connections m.active_connections)) [
  | inl e ↦ inr (least_mem c is l (rw (e, least) at h))
  | inr e ↦ skip m c is l (least_mem m is l (rw (e, least) at h))
]
  where
    skip :
        (m c : ServiceInstance) (is : List ServiceInstance) (l : ServiceInstance)
        → Any (λ i. i ≡ l) (m ∷ is)
        → Any (λ i. i ≡ l) (m ∷ c ∷ is)
    skip m c is l (inl p) = inl p
    skip m c is l (inr p) = inr (inr p)

-- The list has an instance with the URL whose measure is the least of the list.
abbrev pub Chosen : (ServiceInstance → ℕ) → String → List ServiceInstance → Type 0
Chosen f u is = Any (λ i. (i.url ≡ u) × All (λ j. f i ≤ f j) is) is

least_connections-Chosen :
    (is : List ServiceInstance) {u : String}
    → least_connections is ≡ found u
    → Chosen (λ i. i.active_connections) u is
unfolding least_connections
least_connections-Chosen [] h = cc
least_connections-Chosen (i ∷ is) {u} h =
    let l : ServiceInstance = least i is in
    let bounds = least_min i is l.active_connections refl in
    let same : l.url ≡ u = cc in
    Any-map (i ∷ is)
      (λ j e. (
        rw e same,
        subst (λ k. All (λ x. k.active_connections ≤ x.active_connections) (i ∷ is)) (sym e) bounds,
      ))
      (least_mem i is l refl)

insert_by_time-head :
    (i : ServiceInstance) (is : List ServiceInstance)
    → (h : ServiceInstance) × (get_elem? (insert_by_time i is) 0 ≡ some h)
      × (h.response_time ≤ i.response_time)
      × ((j : ServiceInstance) → get_elem? is 0 ≡ some j → h.response_time ≤ j.response_time)
unfolding insert_by_time
insert_by_time-head i [] = (i, refl, omega arith, λ j e. cc)
insert_by_time-head i (k ∷ is) = elim (Bool-cases (leb i.response_time k.response_time)) [
  | inl e ↦ (i, rw e, omega arith, λ j f. ground arith)
  | inr e ↦ (k, rw e, ground arith, λ j f. ground arith)
]

All-slower :
    (n m : ℕ) (is : List ServiceInstance)
    → n ≤ m
    → All (λ j. m ≤ j.response_time) is
    → All (λ j. n ≤ j.response_time) is
All-slower n m [] h a = tt
All-slower n m (i ∷ is) h a = (omega arith, All-slower n m is h a.1)

sort_by_time-min :
    (is : List ServiceInstance) (h : ServiceInstance)
    → get_elem? (sort_by_time is) 0 ≡ some h
    → All (λ j. h.response_time ≤ j.response_time) is
unfolding sort_by_time
sort_by_time-min [] h e = tt
sort_by_time-min (i ∷ []) h e =
    let (g, eg, a, b) = insert_by_time-head i [] in let same : g ≡ h = cc in (ground arith, tt)
sort_by_time-min (i ∷ k ∷ is) h e =
    let (j, ej, c, d) = insert_by_time-head k (sort_by_time is) in
    let (g, eg, a, b) = insert_by_time-head i (sort_by_time (k ∷ is)) in
    let same : g ≡ h = cc in
    let below : h.response_time ≤ j.response_time = ground (arith, b j ej) in
    (
      ground arith,
      All-slower h.response_time j.response_time (k ∷ is) below (sort_by_time-min (k ∷ is) j ej),
    )

health_based-Chosen :
    (is : List ServiceInstance) {u : String}
    → health_based is ≡ found u
    → Chosen (λ i. i.response_time) u is
unfolding health_based
health_based-Chosen is {u} h = elim (Option-cases (get_elem? (sort_by_time is) 0)) [
  | inl e ↦ absurd (ground arith)
  | inr (l, e) ↦
      let same : l.url ≡ u = ground arith in
      let bounds = sort_by_time-min is l e in
      Any-map is
        (λ j f.
          (rw f same, subst (λ k. All (λ x. k.response_time ≤ x.response_time) is) (sym f) bounds))
        (sort_by_time-Any (λ j. j ≡ l) is (head_Any (sort_by_time is) e))
]
  where
    head_Any :
        (xs : List ServiceInstance) {l : ServiceInstance}
        → get_elem? xs 0 ≡ some l
        → Any (λ j. j ≡ l) xs
    head_Any [] e = cc
    head_Any (x ∷ xs) e = inl cc

-- A URL answered under LEAST_CONNECTIONS is that of a healthy instance that has the fewest active
-- connections of the healthy instances.
pub get_next_instance-least :
    (b : LoadBalancer) (name : String) (ip : Option String) {u : String}
    → (get_next_instance b name LoadBalancingStrategy.least_connections ip).1 ≡ found u
    → Chosen (λ i. i.active_connections) u (healthy_instances (get_instances b name))
unfolding get_next_instance
get_next_instance-least b name ip h =
    let is = healthy_instances (get_instances b name) in
    elim (Bool-cases (length is == 0)) [
      | inl e ↦ absurd (ground arith)
      | inr e ↦ least_connections-Chosen is (rw (e, get_next_instance) at h)
    ]

-- A URL answered under HEALTH_BASED is that of a healthy instance that has the shortest response time
-- of the healthy instances.
pub get_next_instance-fastest :
    (b : LoadBalancer) (name : String) (ip : Option String) {u : String}
    → (get_next_instance b name LoadBalancingStrategy.health_based ip).1 ≡ found u
    → Chosen (λ i. i.response_time) u (healthy_instances (get_instances b name))
unfolding get_next_instance
get_next_instance-fastest b name ip h =
    let is = healthy_instances (get_instances b name) in
    elim (Bool-cases (length is == 0)) [
      | inl e ↦ absurd (ground arith)
      | inr e ↦ health_based-Chosen is (rw (e, get_next_instance) at h)
    ]

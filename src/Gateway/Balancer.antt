-- ===== src/Gateway/Balancer.antt =====
-- src/modules/gateway/services/load-balancer.service.ts. A method that changes `this` returns the new
-- record. Response times, connections and weights are whole numbers; `now` is the clock's value.
use mash_backend.Prelude.{
  ℕ, zero, suc, ◌+◌, ◌-◌, ◌%◌, String, Bool, true, Option, none, some, List, [], ◌∷◌, ◌++◌, ltb,
  leb, ◌==◌, if◌then◌else◌, ◌===◌, string_eq, length, get_elem?, keep, find, update_first, Map, get,
  put,
}
use mash_backend.Prelude.{map}
use mash_backend.Prelude.Int.{ℤ, pos, negsuc, ◌+ℤ◌}
use mash_backend.Prelude.Texts.{codes, split, parse_int}
use mash_backend.Gateway.Types.{LoadBalancingStrategy, ServiceInstance}
pub mod Safety
pub mod Turns
pub mod Choice
pub mod Address
pub mod Registry

-- What `getNextInstance` does: it answers a URL or `null`, or throws.
pub data Answer : Type 0 where
  null : Answer
  found : String → Answer
  type_error : Answer

pub record LoadBalancer : Type 0 where
  pub round_robin_indexes : Map String ℕ
  pub service_instances : Map String (List ServiceInstance)

-- `e.url`, which throws where `e` is undefined.
abbrev pub url_of : Option ServiceInstance → Answer
url_of none = type_error
url_of (some i) = found i.url

-- `x || d` for a number that may be missing.
abbrev pub or_number : Option ℕ → ℕ → ℕ
or_number none d = d
or_number (some zero) d = d
or_number (some (suc n)) d = suc n

abbrev pub or_empty : Option (List ServiceInstance) → List ServiceInstance
or_empty none = []
or_empty (some is) = is

unfoldable pub get_instances : LoadBalancer → String → List ServiceInstance
get_instances b name = or_empty (get name b.service_instances)

abbrev pub healthy_instances : List ServiceInstance → List ServiceInstance
healthy_instances is = keep (λ i. i.healthy) is

abbrev pub current_index : LoadBalancer → String → ℕ
current_index b name = or_number (get name b.round_robin_indexes) 0

abbrev pub advance : LoadBalancer → String → LoadBalancer
advance b name = record b {
  round_robin_indexes = put name (current_index b name + 1) b.round_robin_indexes;
}

unfoldable pub round_robin : LoadBalancer → String → List ServiceInstance → LoadBalancer × Answer
round_robin b name is = (advance b name, url_of (get_elem? is (current_index b name % length is)))

-- The callback of the `reduce` in `leastConnections`, run along the list.
unfoldable pub least : ServiceInstance → List ServiceInstance → ServiceInstance
least m [] = m
least m (c ∷ is) = least (if ltb c.active_connections m.active_connections then c else m) is

-- `reduce` with no start throws at the empty list.
unfoldable pub least_connections : List ServiceInstance → Answer
unfolding least
least_connections [] = type_error
least_connections (i ∷ is) = found (least i is).url

abbrev pub weight_of : ServiceInstance → ℕ
weight_of i = or_number i.weight 1

unfoldable pub total_weight : List ServiceInstance → ℕ
total_weight [] = 0
total_weight (i ∷ is) = weight_of i + total_weight is

-- The loop of `weightedRoundRobin`, with `weightSum` so far.
unfoldable pub pick_weighted : ℕ → ℕ → List ServiceInstance → Option ServiceInstance
pick_weighted position weight_sum [] = none
pick_weighted position weight_sum (i ∷ is) =
    let weight_sum' = weight_sum + weight_of i in
    let rest = pick_weighted position weight_sum' is in
    if ltb position weight_sum' then some i else rest

abbrev pub or_first : Option ServiceInstance → List ServiceInstance → Option ServiceInstance
or_first none is = get_elem? is 0
or_first (some i) is = some i

unfoldable pub weighted_round_robin :
    LoadBalancer → String → List ServiceInstance → LoadBalancer × Answer
unfolding total_weight pick_weighted
weighted_round_robin b name is =
    let position = current_index b name % total_weight is in
    (advance b name, url_of (or_first (pick_weighted position 0 is) is))

-- `acc + parseInt(octet, 10)`; `none` is `NaN`.
abbrev pub add_number : Option ℤ → Option ℤ → Option ℤ
add_number (some a) (some b) = some (a +ℤ b)
add_number _ _ = none

unfoldable pub hash_octets : Option ℤ → List (List ℕ) → Option ℤ
unfolding parse_int
hash_octets acc [] = acc
hash_octets acc (octet ∷ octets) = hash_octets (add_number acc (parse_int octet)) octets

unfoldable pub hash_ip : String → Option ℤ
unfolding hash_octets split ◌+ℤ◌
hash_ip ip = hash_octets (some (pos 0)) (split b'.' (codes ip))

-- `instances[hash % instances.length]`: no entry at `NaN`, nor at a negative remainder.
unfoldable pub at_hash : Option ℤ → List ServiceInstance → Option ServiceInstance
at_hash none is = none
at_hash (some (pos h)) is = get_elem? is (h % length is)
at_hash (some (negsuc h)) is = if suc h % length is == 0 then get_elem? is 0 else none

unfoldable pub ip_hash : Option String → List ServiceInstance → Answer
unfolding hash_ip at_hash
ip_hash none is = url_of (get_elem? is 0)
ip_hash (some ip) is =
    if ip === "" then url_of (get_elem? is 0) else url_of (at_hash (hash_ip ip) is)

-- `Array.sort` is stable: an instance goes before those that are not faster.
unfoldable pub insert_by_time : ServiceInstance → List ServiceInstance → List ServiceInstance
insert_by_time i [] = i ∷ []
insert_by_time i (j ∷ is) =
    if leb i.response_time j.response_time then i ∷ j ∷ is else j ∷ insert_by_time i is

unfoldable pub sort_by_time : List ServiceInstance → List ServiceInstance
unfolding insert_by_time
sort_by_time [] = []
sort_by_time (i ∷ is) = insert_by_time i (sort_by_time is)

unfoldable pub health_based : List ServiceInstance → Answer
unfolding sort_by_time
health_based is = url_of (get_elem? (sort_by_time is) 0)

-- The `switch` of `getNextInstance`, over the healthy instances.
unfoldable pub dispatch :
    LoadBalancingStrategy
    → LoadBalancer
    → String
    → Option String
    → List ServiceInstance
    → LoadBalancer × Answer
unfolding round_robin least_connections weighted_round_robin ip_hash health_based
dispatch LoadBalancingStrategy.round_robin b name ip is = round_robin b name is
dispatch LoadBalancingStrategy.least_connections b name ip is = (b, least_connections is)
dispatch LoadBalancingStrategy.weighted_round_robin b name ip is = weighted_round_robin b name is
dispatch LoadBalancingStrategy.ip_hash b name ip is = (b, ip_hash ip is)
dispatch LoadBalancingStrategy.health_based b name ip is = (b, health_based is)

unfoldable pub get_next_instance :
    LoadBalancer → String → LoadBalancingStrategy → Option String → LoadBalancer × Answer
unfolding get_instances dispatch
get_next_instance b name strategy ip =
    let is = healthy_instances (get_instances b name) in
    if length is == 0 then (b, null) else dispatch strategy b name ip is

-- `i => i.url === url`.
abbrev pub has_url : String → ServiceInstance → Bool
has_url url i = i.url === url

abbrev pub new_instance : String → Option ℕ → ℕ → ServiceInstance
new_instance url weight now = record {
  url = url;
  healthy = true;
  last_checked = now;
  response_time = 0;
  active_connections = 0;
  weight = weight;
}

unfoldable pub registered : String → Option ℕ → ℕ → List ServiceInstance → List ServiceInstance
registered url weight now is = elim (find (has_url url) is) [
  | none ↦ is ++ new_instance url weight now ∷ []
  | some _ ↦ update_first (has_url url) (λ i. record i { weight = weight }) is
]

unfoldable pub register_instance : LoadBalancer → String → String → Option ℕ → ℕ → LoadBalancer
unfolding registered get_instances
register_instance b name url weight now = record b {
  service_instances =
      put name (registered url weight now (get_instances b name)) b.service_instances;
}

-- The three methods that look for one instance of a service and assign to its fields.
unfoldable pub change_instance :
    LoadBalancer → String → String → (ServiceInstance → ServiceInstance) → LoadBalancer
change_instance b name url f = elim (get name b.service_instances) [
  | none ↦ b
  | some is ↦ record b {
    service_instances = put name (update_first (has_url url) f is) b.service_instances;
  }
]

abbrev pub or_time : Option ℕ → ℕ → ℕ
or_time none old = old
or_time (some t) old = t

unfoldable pub update_instance_health :
    LoadBalancer → String → String → Bool → Option ℕ → ℕ → LoadBalancer
unfolding change_instance
update_instance_health b name url healthy time now = change_instance b name url λ i. record i {
  healthy = healthy;
  last_checked = now;
  response_time = or_time time i.response_time;
}

unfoldable pub increment_connections : LoadBalancer → String → String → LoadBalancer
unfolding change_instance
increment_connections b name url =
    change_instance b name url λ i. record i { active_connections = i.active_connections + 1 }

unfoldable pub decrement_connections : LoadBalancer → String → String → LoadBalancer
unfolding change_instance
decrement_connections b name url = change_instance b name url λ i. record i {
  active_connections =
      if ltb 0 i.active_connections then i.active_connections - 1 else i.active_connections;
}

unfoldable pub total_connections : List ServiceInstance → ℕ
total_connections [] = 0
total_connections (i ∷ is) = i.active_connections + total_connections is

pub record Statistics : Type 0 where
  pub total_instances : ℕ
  pub healthy_count : ℕ
  pub connections : ℕ

-- `getStatistics(serviceName)`, its numbers.
unfoldable pub get_statistics : LoadBalancer → String → Statistics
unfolding get_instances total_connections
get_statistics b name =
    let is = get_instances b name in
    record {
      total_instances = length is;
      healthy_count = length (healthy_instances is);
      connections = total_connections is;
    }

-- `getStatistics()` without a service: the services' names and numbers.
unfoldable pub get_all_statistics : LoadBalancer → List (String × Statistics)
unfolding total_connections
get_all_statistics b =
    map
      (λ (name, is). (
        name,
        record {
          total_instances = length is;
          healthy_count = length (healthy_instances is);
          connections = total_connections is;
        },
      ))
      b.service_instances

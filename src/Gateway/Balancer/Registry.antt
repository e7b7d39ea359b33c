-- ===== src/Gateway/Balancer/Registry.antt =====
-- The registry of instances (load-balancer.service.ts, `registerInstance` and the methods that look for
-- one instance by its URL).
use mash_backend.Prelude.{
  ℕ, ◌≡◌, ◌≢◌, refl, sym, ap, ◌∙◌, inl, inr, String, Bool, true, Option, none, List, [], ◌∷◌, ◌++◌,
  arith, ◌===◌, ===_iff, ===_refl, if◌then◌else◌, string_eq, find, update_first, All, get, put,
  get-put, put-put, put-get, Bool-cases, Option-cases,
}
use mash_backend.Gateway.Types.{ServiceInstance}
use mash_backend.Gateway.Balancer.{
  LoadBalancer, get_instances, has_url, registered, register_instance, change_instance,
  update_instance_health, increment_connections, decrement_connections,
}

-- No two instances of a list have one URL.
abbrev pub UniqueUrls : List ServiceInstance → Type 0
UniqueUrls [] = Unit
UniqueUrls (i ∷ is) = All (λ j. j.url ≢ i.url) is × UniqueUrls is

-- So in the list of every service.
abbrev pub IsValid : LoadBalancer → Type 0
IsValid b = (name : String) → UniqueUrls (get_instances b name)

All-update :
    (u url : String) (f : ServiceInstance → ServiceInstance) (is : List ServiceInstance)
    → ((i : ServiceInstance) → (f i).url ≡ i.url)
    → All (λ j. j.url ≢ u) is
    → All (λ j. j.url ≢ u) (update_first (has_url url) f is)
All-update u url f [] same h = tt
All-update u url f (i ∷ is) same h = ground (arith, same i, All-update u url f is same h.1)

update-UniqueUrls :
    (url : String) (f : ServiceInstance → ServiceInstance) (is : List ServiceInstance)
    → ((i : ServiceInstance) → (f i).url ≡ i.url)
    → UniqueUrls is
    → UniqueUrls (update_first (has_url url) f is)
update-UniqueUrls url f [] same h = tt
update-UniqueUrls url f (i ∷ is) same h = elim (Bool-cases (i.url === url)) [
  | inl e ↦ rw e (rw (same i) h.0, h.1)
  | inr e ↦ rw e (All-update i.url url f is same h.0, update-UniqueUrls url f is same h.1)
]

absent :
    (url : String) (is : List ServiceInstance)
    → find (has_url url) is ≡ none
    → All (λ j. j.url ≢ url) is
absent url [] h = tt
absent url (i ∷ is) h = ground (arith, ===_iff i.url url, absent url is)

append-UniqueUrls :
    (is : List ServiceInstance) (x : ServiceInstance)
    → All (λ j. j.url ≢ x.url) is
    → UniqueUrls is
    → UniqueUrls (is ++ x ∷ [])
append-UniqueUrls [] x a h = (tt, tt)
append-UniqueUrls (i ∷ is) x a h = (beside is h.0, append-UniqueUrls is x a.1 h.1)
  where
    beside :
        (js : List ServiceInstance)
        → All (λ j. j.url ≢ i.url) js
        → All (λ j. j.url ≢ i.url) (js ++ x ∷ [])
    beside [] b = (λ e. a.0 (sym e), tt)
    beside (j ∷ js) b = (b.0, beside js b.1)

registered-UniqueUrls :
    (url : String) (weight : Option ℕ) (now : ℕ) (is : List ServiceInstance)
    → UniqueUrls is
    → UniqueUrls (registered url weight now is)
unfolding registered
registered-UniqueUrls url weight now is h = elim (Option-cases (find (has_url url) is)) [
  | inl e ↦ rw (e, registered) (append-UniqueUrls is _ (absent url is e) h)
  | inr (i, e) ↦ rw (e, registered) (update-UniqueUrls url _ is (λ j. refl) h)
]

-- The list of a service after a write to the list of `name`.
get_instances-put :
    (b : LoadBalancer) (name n : String) (is : List ServiceInstance)
    → get_instances (record b { service_instances = put name is b.service_instances }) n
      ≡ (if name === n then is else get_instances b n)
unfolding get_instances
get_instances-put b name n is = ground (arith, get-put n name is b.service_instances)

put-IsValid :
    (b : LoadBalancer) (name : String) (is : List ServiceInstance)
    → UniqueUrls is
    → IsValid b
    → IsValid (record b { service_instances = put name is b.service_instances })
put-IsValid b name is u v n = elim (Bool-cases (name === n)) [
  | inl e ↦ rw (get_instances-put b name n is, e) u
  | inr e ↦ rw (get_instances-put b name n is, e) (v n)
]

change_instance-IsValid :
    (b : LoadBalancer) (name url : String) (f : ServiceInstance → ServiceInstance)
    → ((i : ServiceInstance) → (f i).url ≡ i.url)
    → IsValid b
    → IsValid (change_instance b name url f)
unfolding change_instance get_instances
change_instance-IsValid b name url f same v = elim (Option-cases (get name b.service_instances)) [
  | inl e ↦ rw (e, change_instance) v
  | inr (is, e) ↦
      rw (e, change_instance)
        (put-IsValid b name _ (update-UniqueUrls url f is same (rw e at (v name))) v)
]

-- The four methods that change the registry.
pub data Change : LoadBalancer → LoadBalancer → Type 0 where
  register :
      (b : LoadBalancer) (name url : String) (weight : Option ℕ) (now : ℕ)
      → Change b (register_instance b name url weight now)
  health :
      (b : LoadBalancer) (name url : String) (healthy : Bool) (time : Option ℕ) (now : ℕ)
      → Change b (update_instance_health b name url healthy time now)
  increment : (b : LoadBalancer) (name url : String) → Change b (increment_connections b name url)
  decrement : (b : LoadBalancer) (name url : String) → Change b (decrement_connections b name url)

-- Where no service has two instances of one URL, none has after a call of any of the methods that
-- change the registry.
pub Change-IsValid : {b c : LoadBalancer} → Change b c → IsValid b → IsValid c
unfolding register_instance update_instance_health increment_connections decrement_connections
Change-IsValid (register b name url weight now) v =
    put-IsValid b name _ (registered-UniqueUrls url weight now (get_instances b name) (v name)) v
Change-IsValid (health b name url healthy time now) v =
    change_instance-IsValid b name url _ (λ i. refl) v
Change-IsValid (increment b name url) v = change_instance-IsValid b name url _ (λ i. refl) v
Change-IsValid (decrement b name url) v = change_instance-IsValid b name url _ (λ i. refl) v

update_first-twice :
    (url : String) (f g : ServiceInstance → ServiceInstance) (is : List ServiceInstance)
    → ((i : ServiceInstance) → (f i).url ≡ i.url)
    → ((i : ServiceInstance) → g (f i) ≡ i)
    → update_first (has_url url) g (update_first (has_url url) f is) ≡ is
update_first-twice url f g [] same back = refl
update_first-twice url f g (i ∷ is) same back = elim (Bool-cases (i.url === url)) [
  | inl e ↦
      let e' : ((f i).url === url) ≡ true = ap (λ u. u === url) (same i) ∙ e in
      rw e (rw e' (ap (λ j. j ∷ is) (back i)))
  | inr e ↦ rw e (rw e (ap (λ l. i ∷ l) (update_first-twice url f g is same back)))
]

change_instance-twice :
    (b : LoadBalancer) (name url : String) (f g : ServiceInstance → ServiceInstance)
    → ((i : ServiceInstance) → (f i).url ≡ i.url)
    → ((i : ServiceInstance) → g (f i) ≡ i)
    → change_instance (change_instance b name url f) name url g ≡ b
unfolding change_instance
change_instance-twice b name url f g same back =
    elim (Option-cases (get name b.service_instances)) [
      | inl e ↦ ground arith
      | inr (is, e) ↦ ground (
        arith,
        get-put name name (update_first (has_url url) f is) b.service_instances,
        ===_refl name,
        update_first-twice url f g is same back,
        put-put name is (update_first (has_url url) f is) b.service_instances,
        put-get name is b.service_instances,
      )
    ]

-- To release a connection just after it was taken puts the balancer back as it was, also where the
-- service or the URL is unknown.
pub decrement-increment :
    (b : LoadBalancer) (name url : String)
    → decrement_connections (increment_connections b name url) name url ≡ b
unfolding decrement_connections increment_connections
decrement-increment b name url =
    change_instance-twice b name url _ _ (λ i. refl) (λ i. ground arith)

-- ===== src/Gateway/Balancer/Turns.antt =====
-- In what order the two rotating strategies serve the instances (load-balancer.service.ts, `roundRobin`
-- and `weightedRoundRobin`).
use mathlib.Core.List.{Perm, perm_append_comm, map-append, append-nil, append_assoc}
use mathlib.Core.List.Perm
use mathlib.Core.Path.{ap₂, subst}
use native.Mathlib.Nat.{mod-add-mod, zero-add, suc-add}
use mash_backend.Prelude.{
  ℕ, zero, suc, ◌+◌, ◌-◌, ◌%◌, ◌<◌, ◌≤◌, ◌≡◌, refl, ap, sym, ◌∙◌, inl, inr, String, true, false,
  Option, some, List, [], ◌∷◌, ◌++◌, map, arith, ltb, ◌==◌, ===_refl, string_eq, length,
  length-append, length-replicate, get_elem?-replicate, get_elem?_total, get_elem?, replicate,
  get-put, Bool-cases,
}
use mash_backend.Gateway.Types.{LoadBalancingStrategy, ServiceInstance}
use mash_backend.Gateway.Balancer.{
  Answer, found, LoadBalancer, get_instances, healthy_instances, weight_of, current_index, advance,
  round_robin, pick_weighted, total_weight, weighted_round_robin, get_next_instance,
}

-- The answers of `n` calls of `roundRobin` on one list.
turns : ℕ → LoadBalancer → String → List ServiceInstance → List Answer
turns zero b name is = []
turns (suc n) b name is = let (b', a) = round_robin b name is in a ∷ turns n b' name is

abbrev pub answer_of : ServiceInstance → Answer
answer_of i = found i.url

current_index-advance :
    (b : LoadBalancer) (name : String)
    → current_index (advance b name) name ≡ current_index b name + 1
current_index-advance b name =
    rw (get-put name name (current_index b name + 1) b.round_robin_indexes, ===_refl name)
      (ground arith)

get_elem?-append :
    {A : Type 0} (pre : List A) (x : A) (post : List A)
    → get_elem? (pre ++ x ∷ post) (length pre) ≡ some x
get_elem?-append [] x post = refl
get_elem?-append (y ∷ pre) x post = get_elem?-append pre x post

next_mod : (c n k : ℕ) → c % n ≡ k → suc k < n → (c + 1) % n ≡ suc k
next_mod c n k h l = grind (arith, mod-add-mod)

wrap_mod : (c n k : ℕ) → c % n ≡ k → suc k ≡ n → (c + 1) % n ≡ 0
wrap_mod c n k h l = grind (arith, mod-add-mod)

-- From the position behind `pre` the next calls serve the instances that stand there, in their order.
serve :
    (b : LoadBalancer) (name : String) (is pre post rest : List ServiceInstance)
    → is ≡ pre ++ (post ++ rest)
    → current_index b name % length is ≡ length pre
    → turns (length post) b name is ≡ map answer_of post
unfolding turns round_robin
serve b name is pre [] rest e h = refl
serve b name is pre (x ∷ []) rest e h = rw (h, e, get_elem?-append pre x rest)
serve b name is pre (x ∷ y ∷ post) rest e h =
    let first : get_elem? is (length pre) ≡ some x =
      ap (λ l. get_elem? l (length pre)) e ∙ get_elem?-append pre x (y ∷ post ++ rest) in
    let size : length is ≡ length pre + length (x ∷ y ∷ post ++ rest) =
      ap length e ∙ length-append pre (x ∷ y ∷ post ++ rest) in
    let next : current_index (advance b name) name % length is ≡ length (pre ++ x ∷ []) =
      rw (current_index-advance b name, length-append pre (x ∷ []))
        (next_mod (current_index b name) (length is) (length pre) h (omega arith) ∙ omega arith) in
    ap₂ ◌∷◌ (rw (h, first)) (
      serve (advance b name) name is (pre ++ x ∷ []) (y ∷ post) rest
        (e ∙ sym (append_assoc pre (x ∷ []) (y ∷ post ++ rest))) next)

after : ℕ → LoadBalancer → String → LoadBalancer
after zero b name = b
after (suc n) b name = after n (advance b name) name

current_index-after :
    (n : ℕ) (b : LoadBalancer) (name : String)
    → current_index (after n b name) name ≡ current_index b name + n
unfolding after
current_index-after zero b name = omega arith
current_index-after (suc n) b name =
    current_index-after n (advance b name) name ∙ omega (arith, current_index-advance b name)

turns-add :
    (m n : ℕ) (b : LoadBalancer) (name : String) (is : List ServiceInstance)
    → turns (m + n) b name is ≡ turns m b name is ++ turns n (after m b name) name is
unfolding turns after round_robin
turns-add zero n b name is = rw zero-add
turns-add (suc m) n b name is =
    rw suc-add (ap (λ l. (round_robin b name is).1 ∷ l) (turns-add m n (advance b name) name is))

split_at :
    {A : Type 0} (r : ℕ) (xs : List A)
    → r ≤ length xs
    → (pre : List A) × (post : List A) × (xs ≡ pre ++ post) × (length pre ≡ r)
split_at zero xs h = ([], xs, refl, refl)
split_at (suc r) [] h = absurd (omega arith)
split_at (suc r) (x ∷ xs) h =
    let (pre, post, e, l) = split_at r xs (omega arith) in
    (x ∷ pre, post, ap (λ l. x ∷ l) e, ap suc l)

rotate_mod : (c n r k : ℕ) → c % n ≡ r → r + k ≡ n → (c + k) % n ≡ 0
rotate_mod c n r k h e = grind (arith, mod-add-mod)

turns-rotate :
    (b : LoadBalancer) (name : String) (is pre post : List ServiceInstance)
    → is ≡ pre ++ post
    → current_index b name % length is ≡ length pre
    → turns (length post + length pre) b name is ≡ map answer_of (post ++ pre)
turns-rotate b name is pre post e h =
    turns-add (length post) (length pre) b name is
    ∙ ap₂ ◌++◌ (serve b name is pre post [] (e ∙ ap (λ l. pre ++ l) (sym (append-nil post))) h) (
        serve (after (length post) b name) name is [] pre post e (
          rw (current_index-after (length post) b name) (
            rotate_mod (current_index b name) (length is) (length pre) (length post) h
              (sym (length-append pre post) ∙ ap length (sym e)))))
    ∙ sym (map-append answer_of post pre)

-- As many calls as there are instances serve each instance once.
turns-perm :
    (b : LoadBalancer) (name : String) (is : List ServiceInstance)
    → 0 < length is
    → Perm (turns (length is) b name is) (map answer_of is)
turns-perm b name is h =
    let (pre, post, e, l) = split_at (current_index b name % length is) is (grind arith) in
    let size : length is ≡ length post + length pre =
      omega (arith, ap length e, length-append pre post) in
    let cycle : turns (length is) b name is ≡ map answer_of (post ++ pre) =
      ap (λ n. turns n b name is) size ∙ turns-rotate b name is pre post e (sym l) in
    rw (cycle)
      (Perm.map answer_of (subst (λ l. Perm (post ++ pre) l) (sym e) (perm_append_comm post pre)))

-- The answers of `n` calls of `getNextInstance` for one service, by one strategy.
unfoldable pub calls :
    ℕ → LoadBalancer → String → LoadBalancingStrategy → Option String → List Answer
calls zero b name strategy ip = []
calls (suc n) b name strategy ip =
    let (b', a) = get_next_instance b name strategy ip in a ∷ calls n b' name strategy ip

calls-turns :
    (n : ℕ) (b : LoadBalancer) (name : String) (ip : Option String)
    → let is = healthy_instances (get_instances b name) in
      (length is == 0) ≡ false
      → calls n b name LoadBalancingStrategy.round_robin ip ≡ turns n b name is
unfolding calls turns get_next_instance
calls-turns zero b name ip h = refl
calls-turns (suc n) b name ip h =
    rw (h, get_next_instance)
      (ap (λ l. (round_robin b name (healthy_instances (get_instances b name))).1 ∷ l)
        (calls-turns n (advance b name) name ip h))

no_turn :
    (is : List ServiceInstance) (answers : ℕ → List Answer)
    → (length is == 0) ≡ true
    → answers 0 ≡ []
    → Perm (answers (length is)) (map answer_of is)
no_turn [] answers h e = rw e (Perm.refl [])
no_turn (i ∷ is) answers h e = absurd (ground arith)

-- Under ROUND_ROBIN, as many consecutive calls as there are healthy instances answer each healthy
-- instance exactly once, wherever the index stands.
pub round_robin-perm :
    (b : LoadBalancer) (name : String) (ip : Option String)
    → let is = healthy_instances (get_instances b name) in
      Perm (calls (length is) b name LoadBalancingStrategy.round_robin ip) (map answer_of is)
unfolding calls
round_robin-perm b name ip =
    let is = healthy_instances (get_instances b name) in
    elim (Bool-cases (length is == 0)) [
      | inl e ↦ no_turn is (λ n. calls n b name LoadBalancingStrategy.round_robin ip) e refl
      | inr e ↦ rw (calls-turns (length is) b name ip e) (turns-perm b name is (ground arith))
    ]

-- Each instance, as often as its weight says.
unfoldable pub shares : List ServiceInstance → List ServiceInstance
shares [] = []
shares (i ∷ is) = replicate (weight_of i) i ++ shares is

length-shares : (is : List ServiceInstance) → length (shares is) ≡ total_weight is
unfolding shares total_weight
length-shares [] = refl
length-shares (i ∷ is) = omega (
  arith,
  length-append (replicate (weight_of i) i) (shares is),
  length-replicate (weight_of i) i,
  length-shares is,
)

pick_weighted-shares :
    (s d : ℕ) (is : List ServiceInstance) → pick_weighted (s + d) s is ≡ get_elem? (shares is) d
unfolding pick_weighted shares
pick_weighted-shares s d [] = refl
pick_weighted-shares s d (i ∷ is) =
    let w : ℕ = weight_of i in
    elim (Bool-cases (ltb d w)) [
      | inl e ↦ ground (arith, get_elem?-replicate w d i (shares is))
      | inr e ↦
          let same : s + w + (d - w) ≡ s + d = ground arith in
          ground (
            arith,
            get_elem?-replicate w d i (shares is),
            rw same at (pick_weighted-shares (s + w) (d - w) is),
          )
    ]

total_weight_pos : (is : List ServiceInstance) → (length is == 0) ≡ false → 0 < total_weight is
unfolding total_weight
total_weight_pos [] h = cc
total_weight_pos (i ∷ is) h = ground arith

-- WEIGHTED_ROUND_ROBIN is a round robin over the list in which each instance stands as often as its
-- weight says.
pub weighted_round_robin-shares :
    (b : LoadBalancer) (name : String) (is : List ServiceInstance)
    → (length is == 0) ≡ false
    → weighted_round_robin b name is ≡ round_robin b name (shares is)
unfolding weighted_round_robin round_robin
weighted_round_robin-shares b name is h =
    let c : ℕ = current_index b name in
    let total : ℕ = total_weight is in
    let pick : pick_weighted (c % total) 0 is ≡ get_elem? (shares is) (c % total) =
      ap (λ n. pick_weighted n 0 is) (sym (zero-add (c % total)))
      ∙ pick_weighted-shares 0 (c % total) is in
    let (i, e) =
      get_elem?_total (shares is) (c % total)
        (grind (arith, length-shares is, total_weight_pos is h)) in
    rw (pick, length-shares is, e)

calls-shares :
    (n : ℕ) (b : LoadBalancer) (name : String) (ip : Option String)
    → let is = healthy_instances (get_instances b name) in
      (length is == 0) ≡ false
      → calls n b name LoadBalancingStrategy.weighted_round_robin ip ≡ turns n b name (shares is)
unfolding calls turns get_next_instance round_robin
calls-shares zero b name ip h = refl
calls-shares (suc n) b name ip h =
    let is = healthy_instances (get_instances b name) in
    ap₂ ◌∷◌ (rw (h, get_next_instance) (ap (λ r. r.1) (weighted_round_robin-shares b name is h)))
      (rw (h, get_next_instance) (calls-shares n (advance b name) name ip h))

no_share :
    (is : List ServiceInstance) (answers : ℕ → List Answer)
    → (length is == 0) ≡ true
    → answers 0 ≡ []
    → Perm (answers (total_weight is)) (map answer_of (shares is))
unfolding total_weight shares
no_share [] answers h e = rw e (Perm.refl [])
no_share (i ∷ is) answers h e = absurd (ground arith)

-- Under WEIGHTED_ROUND_ROBIN, as many consecutive calls as the weights of the healthy instances add up
-- to answer each healthy instance exactly as often as its weight says, a missing or zero weight
-- counting as one, wherever the index stands.
pub weighted_round_robin-perm :
    (b : LoadBalancer) (name : String) (ip : Option String)
    → let is = healthy_instances (get_instances b name) in
      Perm
        (calls (total_weight is) b name LoadBalancingStrategy.weighted_round_robin ip)
        (map answer_of (shares is))
unfolding calls
weighted_round_robin-perm b name ip =
    let is = healthy_instances (get_instances b name) in
    elim (Bool-cases (length is == 0)) [
      | inl e ↦
          no_share is (λ n. calls n b name LoadBalancingStrategy.weighted_round_robin ip) e refl
      | inr e ↦
          rw (calls-shares (total_weight is) b name ip e, ← length-shares is)
            (turns-perm b name (shares is) (omega (arith, length-shares is, total_weight_pos is e)))
    ]

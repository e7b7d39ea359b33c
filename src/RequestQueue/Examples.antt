-- ===== src/RequestQueue/Examples.antt =====
-- The theorems about the request queue at concrete inputs, on a database in memory.
use mash_backend.Prelude.{
  ℕ, ◌≡◌, ◌⊎◌, refl, String, none, some, List, [], ◌∷◌, arith, get, ===_iff, string_eq,
}
use mash_backend.Orders.Types.{user}
use mash_backend.RequestQueue.Types.{Request, User, Error, err}
use mash_backend.RequestQueue.Rows.{new_application, start, complete}
use mash_backend.RequestQueue.Requests.{approve_role_request}
use mash_backend.RequestQueue.Decisions.{Approvable, Settled, approve_role_request_effect}
use mash_backend.RequestQueue.Runs.{Call, applying, approving, rejecting, step, run}
use mash_backend.RequestQueue.Kept.{OnePending, run-frozen, run-OnePending}
use mash_backend.RequestQueue.Roles.{AskAdmin, Risen, run-Risen}
use mash_backend.RequestQueue.Memory.{Tables, memory}

abbrev ana : User
ana = record { email = "ana@mash.ph"; user_role = user }

abbrev application : Request
unfolding new_application
application = new_application "ana" user "shop" 1

abbrev queue : Tables
unfolding new_application
queue = record { requests = ("r1", application) ∷ []; users = ("ana", ana) ∷ [] }

-- Two approvals of one request, one of a request that is not there, and a new application.
abbrev calls : List (Call × ℕ)
calls =
    (approving "r1" "root" none, 2)
    ∷ (approving "r1" "root" none, 3)
    ∷ (rejecting "r9" "root" none, 4)
    ∷ (applying "r2" "ana" "shop", 5)
    ∷ []

approve_role_request_effect_example :
    let r = approve_role_request memory queue "r1" "root" none 2 in
    ((user_id : String) × (q : Request) × (u : User) × Approvable memory queue "r1" user_id q u
      × Settled memory queue "r1" "root" none 2 user_id q u)
    ⊎ (((user_id : String) (q : Request) (u : User) → Approvable memory queue "r1" user_id q u → ⊥)
        × ((e : Error) × (r ≡ (queue, err e))))
approve_role_request_effect_example = approve_role_request_effect memory queue "r1" "root" none 2

abbrev approved_application : Request
unfolding new_application complete start
approved_application = complete "root" none 2 (start 2 application)

run-frozen_example :
    get "r1"
      (run memory (record queue { requests = ("r1", approved_application) ∷ [] }) calls).requests
    ≡ some approved_application
unfolding get new_application complete start step
run-frozen_example =
    run-frozen memory calls (record queue { requests = ("r1", approved_application) ∷ [] }) "r1"
      approved_application (tt, (tt, (tt, (refl, tt)))) refl refl

one_alone : OnePending memory queue
unfolding get new_application
one_alone u j k r q at_j at_k _ _ = ground (arith, at_j, at_k, ===_iff "r1" j, ===_iff "r1" k)

run-OnePending_example : OnePending memory (run memory queue calls)
run-OnePending_example = run-OnePending memory calls queue one_alone

asks_admin : AskAdmin memory queue
unfolding get new_application
asks_admin j r h = ground (arith, h, ===_iff "r1" j)

run-Risen_example :
    AskAdmin memory (run memory queue calls)
    × ((j : String) (v : User)
        → get j (run memory queue calls).users ≡ some v
        → (u : User) × (get j queue.users ≡ some u) × Risen u v)
run-Risen_example = run-Risen memory calls queue asks_admin

-- ===== src/RequestQueue/Memory.antt =====
-- A database in memory that obeys the laws of the request queue's interface: two maps.
use mathlib.Core.Path.{fun_ext}
use mash_backend.Prelude.{
  is_text, ◌≡◌, refl, ap, inl, inr, String, Bool, true, ◌&&◌, Option, none, some, [], ◌∷◌, arith,
  if◌then◌else◌, ◌===◌, ===_iff, string_eq, Bool-cases, Option-cases, Map, get, put, remove,
  get-put, get-remove,
}
use mash_backend.Prelude.Tables.{adjust, get-adjust}
use mash_backend.RequestQueue.Types.{Request, User}
use mash_backend.RequestQueue.Database.{seller_endpoint, RequestStore, Waits}
use mash_backend.RequestQueue.Rows.{is_pending}

pub record Tables : Type 0 where
  pub requests : Map String Request
  pub users : Map String User

abbrev pub waits : String → Request → Bool
waits user r = is_text r.user_id user && ((r.endpoint === seller_endpoint) && is_pending r.status)

pub Waits-waits : (user : String) (r : Request) → Waits user r → waits user r ≡ true
Waits-waits user r w = rw (w.whose, w.what, w.undecided, (===_iff user user).1 refl) refl

-- The first of the keys under which a request passes the test.
unfoldable pub scan :
    (Request → Bool) → Map String Request → Map String Request → Option (String × Request)
unfolding get
scan p m [] = none
scan p m ((id, _) ∷ es) =
    let rest = scan p m es in
    elim (get id m) [ none ↦ rest | some r ↦ if p r then some (id, r) else rest ]

pub scan-none :
    (p : Request → Bool) (m es : Map String Request) (id : String) (q r : Request)
    → scan p m es ≡ none
    → get id es ≡ some q
    → get id m ≡ some r
    → p r ≡ true
    → ⊥
unfolding scan get
scan-none p m [] id q r h here there passes = absurd cc
scan-none p m ((j, x) ∷ es) id q r h here there passes = elim (Bool-cases (j === id)) [
  | inl e ↦ ground (arith, h, there, passes, ap (λ k. get k m) ((===_iff j id).0 e))
  | inr e ↦ elim (Option-cases (get j m)) [
    | inl f ↦ scan-none p m es id q r (ground (arith, h, f)) (ground (arith, here, e)) there passes
    | inr (y, f) ↦ elim (Bool-cases (p y)) [
      | inl g ↦ absurd (ground (arith, h, f, g))
      | inr g ↦
          scan-none p m es id q r (ground (arith, h, f, g)) (ground (arith, here, e)) there passes
    ]
  ]
]

abbrev pub memory : RequestStore
memory = record {
  Db = Tables;
  contents = λ db. record { requests = λ id. get id db.requests; users = λ id. get id db.users };
  pending_application = λ db user. scan (waits user) db.requests db.requests;
  create_request = λ db id r. record db { requests = put id r db.requests };
  update_request = λ db id f. record db { requests = adjust id f db.requests };
  delete_request = λ db id. record db { requests = remove id db.requests };
  update_user = λ db id f. record db { users = adjust id f db.users };
  contents-create_request = λ db id r.
      ap (λ t. record { requests = t; users = λ id. get id db.users })
        (fun_ext (λ j. get-put j id r db.requests));
  contents-update_request = λ db id f.
      ap (λ t. record { requests = t; users = λ id. get id db.users })
        (fun_ext (λ j. get-adjust id j f db.requests));
  contents-delete_request = λ db id.
      ap (λ t. record { requests = t; users = λ id. get id db.users })
        (fun_ext (λ j. get-remove j id db.requests));
  contents-update_user = λ db id f.
      ap (λ t. record { requests = λ id. get id db.requests; users = t })
        (fun_ext (λ j. get-adjust id j f db.users));
  pending_application-none = λ db user h id r here w.
      scan-none (waits user) db.requests db.requests id r r h here here (Waits-waits user r w);
}

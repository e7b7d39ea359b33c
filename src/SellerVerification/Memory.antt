-- ===== src/SellerVerification/Memory.antt =====
-- A database in memory that obeys the laws of the interface to the applications: two maps.
use mathlib.Core.Path.{fun_ext, subst}
use mash_backend.Prelude.{
  is_text, ◌≤◌, ◌≡◌, ◌⊎◌, inl, inr, refl, ap, ◌∙◌, String, Bool, true, ◌&&◌, Option, none, some, [],
  ◌∷◌, arith, ltb, if◌then◌else◌, ◌===◌, ===_iff, string_eq, Bool-cases, Option-cases, Map, get,
}
use mash_backend.Prelude.Tables.{adjust, get-adjust}
use mash_backend.RequestQueue.Types.{RequestStatus}
use mash_backend.RequestQueue.Database.{seller_endpoint}
use mash_backend.SellerVerification.Types.{Application, Applicant}
use mash_backend.SellerVerification.Database.{ApplicationStore, Wanted}

pub record Tables : Type 0 where
  pub requests : Map String Application
  pub users : Map String Applicant

abbrev pub is_wanted : String → (RequestStatus → Bool) → Application → Bool
is_wanted user passes r =
    is_text r.user_id user && ((r.endpoint === seller_endpoint) && passes r.status)

is_text-eq : (o : Option String) (t : String) → is_text o t ≡ true → o ≡ some t
is_text-eq none t h = absurd cc
is_text-eq (some u) t h = ap some ((===_iff u t).0 h)

pub is_wanted-Wanted :
    (user : String) (passes : RequestStatus → Bool) (r : Application)
    → is_wanted user passes r ≡ true
    → Wanted user passes r
is_wanted-Wanted user passes r h = record {
  whose = is_text-eq r.user_id user (ground (arith, h));
  what = (===_iff r.endpoint seller_endpoint).0 (ground (arith, h));
  which = ground (arith, h);
}

pub Wanted-is_wanted :
    (user : String) (passes : RequestStatus → Bool) (r : Application)
    → Wanted user passes r
    → is_wanted user passes r ≡ true
Wanted-is_wanted user passes r w = rw (w.whose, w.what, w.which, (===_iff user user).1 refl) refl

-- The later of two requests.
abbrev pub later : String → Application → Option (String × Application) → String × Application
later id r none = (id, r)
later id r (some (j, q)) = if ltb r.queued_at q.queued_at then (j, q) else (id, r)

-- The latest of the requests under the keys that passes the test.
unfoldable pub best :
    (Application → Bool)
    → Map String Application
    → Map String Application
    → Option (String × Application)
unfolding get
best p m [] = none
best p m ((id, _) ∷ es) =
    let rest = best p m es in
    elim (get id m) [ none ↦ rest | some r ↦ if p r then some (later id r rest) else rest ]

abbrev pub Under :
    (Application → Bool)
    → Map String Application
    → Map String Application
    → String
    → Application
    → Type 0
Under p m es j q = ((v : Application) × (get j es ≡ some v)) × (get j m ≡ some q) × (p q ≡ true)

-- Either nothing passes the test, or the result does and nothing that does is later.
abbrev pub IsBest :
    (Application → Bool)
    → Map String Application
    → Map String Application
    → Option (String × Application)
    → Type 0
IsBest p m es none = (j : String) (q : Application) → Under p m es j q → ⊥
IsBest p m es (some (id, r)) =
    (get id m ≡ some r)
    × (p r ≡ true)
    × ((j : String) (q : Application) → Under p m es j q → q.queued_at ≤ r.queued_at)

module _ (p : Application → Bool) (m : Map String Application) where
  -- A key below the first is the first or one of the rest.
  Under-cases :
      (id j : String) (v q : Application) (es : Map String Application)
      → Under p m ((id, v) ∷ es) j q
      → (id ≡ j) ⊎ Under p m es j q
  unfolding get
  Under-cases id j v q es ((w, here), there, passes) = elim (Bool-cases (id === j)) [
    | inl e ↦ inl ((===_iff id j).0 e)
    | inr e ↦ inr ((w, ground (arith, here, e)), there, passes)
  ]

  skipped :
      (id : String) (v : Application) (es : Map String Application)
      (o : Option (String × Application))
      → ((q : Application) → get id m ≡ some q → p q ≡ true → ⊥)
      → IsBest p m es o
      → IsBest p m ((id, v) ∷ es) o
  skipped id v es none misses h = λ j q u. elim (Under-cases id j v q es u) [
    | inl e ↦ misses q (ap (λ k. get k m) e ∙ u.1) u.2
    | inr below ↦ h j q below
  ]
  skipped id v es (some (i, r)) misses (here, passes, last) = (
    here,
    passes,
    (λ j q u. elim (Under-cases id j v q es u) [
      | inl e ↦ absurd (misses q (ap (λ k. get k m) e ∙ u.1) u.2)
      | inr below ↦ last j q below
    ]),
  )

  taken :
      (id : String) (v r : Application) (es : Map String Application)
      (o : Option (String × Application))
      → get id m ≡ some r
      → p r ≡ true
      → IsBest p m es o
      → IsBest p m ((id, v) ∷ es) (some (later id r o))
  taken id v r es none at_id passes h = (
    at_id,
    passes,
    (λ j q u. elim (Under-cases id j v q es u) [
      | inl e ↦ ground (arith, at_id, ap (λ k. get k m) e, u.1)
      | inr below ↦ absurd (h j q below)
    ]),
  )
  taken id v r es (some (i, b)) at_id passes (here, fine, last) =
      elim (Bool-cases (ltb r.queued_at b.queued_at)) [
        | inl lt ↦ rw lt (
          here,
          fine,
          (λ j q u. elim (Under-cases id j v q es u) [
            | inl e ↦ ground (arith, at_id, ap (λ k. get k m) e, u.1, lt)
            | inr below ↦ last j q below
          ]),
        )
        | inr ge ↦ rw ge (
          at_id,
          passes,
          (λ j q u. elim (Under-cases id j v q es u) [
            | inl e ↦ ground (arith, at_id, ap (λ k. get k m) e, u.1)
            | inr below ↦ ground (arith, last j q below, ge)
          ]),
        )
      ]

  pub best-IsBest : (es : Map String Application) → IsBest p m es (best p m es)
  unfolding best get
  best-IsBest [] = λ j q u. ground (arith, u.0.1)
  best-IsBest ((id, v) ∷ es) = elim (Option-cases (get id m)) [
    | inl e ↦
        rw (e, best)
          (skipped id v es (best p m es) (λ q h _. ground (arith, e, h)) (best-IsBest es))
    | inr (r, e) ↦ elim (Bool-cases (p r)) [
      | inl f ↦ rw (e, f, best) (taken id v r es (best p m es) e f (best-IsBest es))
      | inr f ↦
          rw (e, f, best)
            (skipped id v es (best p m es) (λ q h k. ground (arith, e, f, h, k)) (best-IsBest es))
    ]
  ]

abbrev pub memory : ApplicationStore
memory = record {
  Db = Tables;
  contents = λ db. record { requests = λ id. get id db.requests; users = λ id. get id db.users };
  latest = λ db user passes. best (is_wanted user passes) db.requests db.requests;
  update_request = λ db id f. record db { requests = adjust id f db.requests };
  contents-update_request = λ db id f.
      ap (λ t. record { requests = t; users = λ id. get id db.users })
        (fun_ext (λ j. get-adjust id j f db.requests));
  latest-some = λ db user passes id r e.
      let p = is_wanted user passes in
      let (here, fine, last) =
        subst (IsBest p db.requests db.requests) e (best-IsBest p db.requests db.requests) in
      (
        here,
        is_wanted-Wanted user passes r fine,
        (λ j q at_j w. last j q ((q, at_j), at_j, Wanted-is_wanted user passes q w)),
      );
  latest-none = λ db user passes e j q at_j w.
      let p = is_wanted user passes in
      subst (IsBest p db.requests db.requests) e (best-IsBest p db.requests db.requests) j q
        ((q, at_j), at_j, Wanted-is_wanted user passes q w);
}

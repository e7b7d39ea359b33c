-- ===== src/Orders/Transitions.antt =====
-- The status of an order: the transitions that `updateStatus` allows, those that the validator of
-- src/common/validators/is-valid-order-status.validator.ts allows, and the handlers that ask neither.
use mash_backend.Prelude.{
  ℕ, suc, ◌+◌, ◌<◌, ◌≤◌, ◌≡◌, refl, ap, ◌∙◌, inl, inr, String, Bool, true, false, not, ◌&&◌, ◌||◌,
  Option, none, some, List, [], ◌∷◌, arith, ◌===◌, ===_iff, if◌then◌else◌, string_eq, Bool-cases,
  Option-cases,
}
use mash_backend.Orders.Types.{
  OrderStatus, pending, confirmed, processing, shipped, delivered, cancelled, refunded, Order,
  Result, ok, err, bad_request,
}
use mash_backend.Prelude.Tables.{mapped}
use mash_backend.Orders.Database.{Store}
use mash_backend.Orders.{is_valid_status_transition, with_status, update_status}

abbrev pub status_text : OrderStatus → String
status_text pending = "PENDING"
status_text confirmed = "CONFIRMED"
status_text processing = "PROCESSING"
status_text shipped = "SHIPPED"
status_text delivered = "DELIVERED"
status_text cancelled = "CANCELLED"
status_text refunded = "REFUNDED"

-- `Object.values(OrderStatus)`.
abbrev pub all_statuses : List OrderStatus
all_statuses = pending ∷ confirmed ∷ processing ∷ shipped ∷ delivered ∷ cancelled ∷ refunded ∷ []

-- `VALID_STATUS_TRANSITIONS`.
abbrev pub valid_status_transitions : OrderStatus → List OrderStatus
valid_status_transitions pending = confirmed ∷ cancelled ∷ []
valid_status_transitions confirmed = processing ∷ cancelled ∷ []
valid_status_transitions processing = shipped ∷ cancelled ∷ []
valid_status_transitions shipped = delivered ∷ cancelled ∷ []
valid_status_transitions delivered = refunded ∷ []
valid_status_transitions cancelled = []
valid_status_transitions refunded = []

abbrev pub includes : String → List OrderStatus → Bool
includes t [] = false
includes t (s ∷ ss) = status_text s === t || includes t ss

-- `validate`, for a text and the status that the object holds, if it holds one.
unfoldable pub validate : String → Option OrderStatus → Bool
validate t current =
    if not (includes t all_statuses)
    then false
    else elim current [ none ↦ true | some c ↦ includes t (valid_status_transitions c) ]

abbrev pub is_shipped : OrderStatus → Bool
is_shipped shipped = true
is_shipped _ = false

abbrev pub is_cancelled : OrderStatus → Bool
is_cancelled cancelled = true
is_cancelled _ = false

-- The validator allows what the service allows, and one transition more: from `SHIPPED` to
-- `CANCELLED`.
pub validate-is_valid_status_transition :
    (a b : OrderStatus)
    → validate (status_text b) (some a)
      ≡ (is_valid_status_transition a b || (is_shipped a && is_cancelled b))
unfolding validate is_valid_status_transition
validate-is_valid_status_transition a pending = ground arith
validate-is_valid_status_transition a confirmed = ground arith
validate-is_valid_status_transition a processing = ground arith
validate-is_valid_status_transition a shipped = ground arith
validate-is_valid_status_transition a delivered = ground arith
validate-is_valid_status_transition a cancelled = ground arith
validate-is_valid_status_transition a refunded = ground arith

-- How far an order has come.
abbrev pub rank : OrderStatus → ℕ
rank pending = 0
rank confirmed = 1
rank processing = 2
rank shipped = 3
rank delivered = 4
rank cancelled = 5
rank refunded = 5

transition_rank : (a b : OrderStatus) → is_valid_status_transition a b ≡ true → rank a < rank b
unfolding is_valid_status_transition
transition_rank a b h = ground arith

rank_most : (a : OrderStatus) → rank a ≤ 5
rank_most a = ground arith

-- A call of `updateStatus`.
pub record StatusCall : Type 0 where
  pub id : String
  pub status : OrderStatus
  pub notes : Option String
  pub now : ℕ

abbrev pub is_ok : Result (Unit {0}) → Bool
is_ok (ok _) = true
is_ok (err _) = false

module _ (s : Store) where
  open s use {
    Db, find_order, find_product, update_order, update_payment, order-update, order-update_payment,
    product-update, product-update_payment,
  }

  module _ (db : Db) (id : String) (b : OrderStatus) (notes : Option String) (now : ℕ) where
    -- An order that is there: where the transition is allowed, the call succeeds and changes this order
    -- alone, to the new status; where it is not, the call throws and the database stays.
    pub update_status_effect :
        (o : Order)
        → find_order db id ≡ some o
        → let (db', r) = update_status s db id b notes now in
          (is_valid_status_transition o.status b ≡ true
            → (r ≡ ok tt)
              × ((j : String)
                  → find_order db' j
                    ≡ (if id === j then some (with_status b notes now o o) else find_order db j)))
          × (is_valid_status_transition o.status b ≡ false → (r ≡ err bad_request) × (db' ≡ db))
    unfolding update_status
    update_status_effect o here = (
      (λ allowed.
          rw (here, allowed, update_status)
            (
              refl,
              (λ j.
                  order-update db id j (with_status b notes now o)
                  ∙ ap
                      (λ x.
                        if id === j then mapped (with_status b notes now o) x else find_order db j)
                      here),
            )),
      (λ refused. rw (here, refused, update_status) (refl, refl)),
    )

  abbrev pub after_call : Db → StatusCall → Db
  after_call db c = (update_status s db c.id c.status c.notes c.now).0

  -- How many of the calls, made one after the other, change that order.
  unfoldable pub moves : String → Db → List StatusCall → ℕ
  unfolding update_status
  moves id db [] = 0
  moves id db (c ∷ cs) =
      let (db', r) = update_status s db c.id c.status c.notes c.now in
      let rest = moves id db' cs in if c.id === id && is_ok r then suc rest else rest

  with_status_status :
      (b : OrderStatus) (notes : Option String) (now : ℕ) (o : Order)
      → (with_status b notes now o o).status ≡ b
  unfolding with_status
  with_status_status pending notes now o = refl
  with_status_status confirmed notes now o = refl
  with_status_status processing notes now o = refl
  with_status_status shipped notes now o = refl
  with_status_status delivered notes now o = refl
  with_status_status cancelled notes now o = refl
  with_status_status refunded notes now o = refl

  pub elsewhere :
      (id : String) (db : Db) (c : StatusCall)
      → (c.id === id) ≡ false
      → find_order (after_call db c) id ≡ find_order db id
  unfolding update_status
  elsewhere id db c other = elim (Option-cases (find_order db c.id)) [
    | inl gone ↦ rw (after_call, gone, update_status) refl
    | inr (p, e) ↦ elim (Bool-cases (is_valid_status_transition p.status c.status)) [
      | inl allowed ↦
          rw (after_call, e, allowed, update_status)
            (order-update db c.id id (with_status c.status c.notes c.now p) ∙ rw other refl)
      | inr refused ↦ rw (after_call, e, refused, update_status) refl
    ]
  ]

  abbrev moved : String → Db → StatusCall → ℕ
  moved id db c =
      if c.id === id && is_ok (update_status s db c.id c.status c.notes c.now).1 then 1 else 0

  call_rank :
      (id : String) (db : Db) (c : StatusCall) (o : Order)
      → find_order db id ≡ some o
      → (o' : Order) × (find_order (after_call db c) id ≡ some o')
        × (moved id db c + rank o.status ≤ rank o'.status)
  call_rank id db c o here = elim (Bool-cases (c.id === id)) [
    | inr other ↦ (o, elsewhere id db c other ∙ here, rw other (omega arith))
    | inl same ↦
        let there : find_order db c.id ≡ some o =
          ap (find_order db) ((===_iff c.id id).0 same) ∙ here in
        let (change, keeps) = update_status_effect db c.id c.status c.notes c.now o there in
        elim (Bool-cases (is_valid_status_transition o.status c.status)) [
          | inl allowed ↦
              let (r, found) = change allowed in
              let higher : rank o.status < rank c.status =
                transition_rank o.status c.status allowed in
              (
                with_status c.status c.notes c.now o o,
                found id ∙ rw same refl,
                rw (same, r, with_status_status c.status c.notes c.now o) (omega (arith, higher)),
              )
          | inr refused ↦
              let (r, db') = keeps refused in
              (o, ap (λ d. find_order d id) db' ∙ here, rw (same, r) (omega arith))
        ]
  ]

  -- An order goes through at most five transitions, and through fewer the further it has come: however
  -- many calls of `updateStatus` there are, on this and on other orders, those that change it and the
  -- rank of its first status make at most five together.
  pub moves_bound :
      (id : String) (cs : List StatusCall) (db : Db) (o : Order)
      → find_order db id ≡ some o
      → moves id db cs + rank o.status ≤ 5
  unfolding moves
  moves_bound id [] db o here = omega (arith, rank_most o.status)
  moves_bound id (c ∷ cs) db o here =
      let (o', found, step) = call_rank id db c o here in
      let rest = moves_bound id cs (after_call db c) o' found in ground (arith, step, rest)

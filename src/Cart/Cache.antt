-- ===== src/Cart/Cache.antt =====
-- src/modules/cart/cart-cache.service.ts, over the Redis service, and the way of the handlers of
-- cart.service.ts through it: a handler looks its cart up in the cache first, and drops it from there
-- when it has changed it.
use Prim.Native.String.{◌++◌ as text_append}
use mash_backend.Prelude.{
  ℕ, String, Bool, true, false, Option, none, some, List, [], ◌∷◌, length, if◌then◌else◌, ◌===◌,
  string_eq,
}
use mash_backend.Prelude.Int.{ℤ, pos}
use mash_backend.RateLimit.Redis.{Client, get, set, delete}
use mash_backend.Cart.Types.{
  Cart, active, CartItem, not_found, bad_request, record_missing, Result, ok, err,
}
use mash_backend.Cart.Database.{CartKey, by_user, by_session, CartStore}
use mash_backend.Cart.Shipping.{ShippingAddress, standard, ShippingCalculation, estimate_shipping}
use mash_backend.Cart.Totals.{
  AddToCartDto, UpdateCartItemDto, add_line, change_line, remove_line, clear_lines, find_cart,
  with_products, total_weight,
}

pub record CartResponse : Type 0 where
  pub id : String
  pub cart : Cart
  pub item_count : ℕ
  pub items : List (String × CartItem)

pub record CartSummary : Type 0 where
  pub item_count : ℕ
  pub total : ℤ
  pub has_unavailable_items : Bool

-- 24 hours, in seconds.
abbrev pub cache_ttl : ℕ
cache_ttl = 86400

-- A text that is missing or empty is false.
abbrev pub text_or_none : Option String → Option String
text_or_none none = none
text_or_none (some t) = if t === "" then none else some t

-- `userId` comes first. `none`: there is neither.
unfoldable pub key_of : Option String → Option String → Option CartKey
key_of user session = elim (text_or_none user) [
  | some u ↦ some (by_user u)
  | none ↦ elim (text_or_none session) [ some s ↦ some (by_session s) | none ↦ none ]
]

unfoldable pub get_cache_key : CartKey → String
get_cache_key (by_user u) = text_append "cart:user:" u
get_cache_key (by_session s) = text_append "cart:session:" s

-- The row that `getOrCreateCart` creates.
abbrev pub new_cart : Option String → Option String → ℕ → Cart
new_cart user session now = record {
  user_id = user;
  session_id = session;
  status = active;
  subtotal = pos 0;
  tax = pos 0;
  shipping = pos 0;
  discount = 0;
  total = pos 0;
  last_activity_at = some now;
  converted_at = none;
}

abbrev pub some_unavailable : List (String × CartItem) → Bool
some_unavailable [] = false
some_unavailable ((_, i) ∷ is) = if i.is_available then some_unavailable is else true

module _ (s : CartStore) (r : Client CartResponse) where
  open s use {Db, active_cart, cart_items, create_cart}
  open r use {Conn}

  abbrev pub World : Type 0
  World = Db × Conn

  unfoldable pub get_cart : Conn → CartKey → ℕ → Option CartResponse
  unfolding get_cache_key get
  get_cart c k now = get r c (get_cache_key k) now

  unfoldable pub set_cart : Conn → CartKey → CartResponse → ℕ → Conn
  unfolding get_cache_key set
  set_cart c k cart now = (set r c (get_cache_key k) cart cache_ttl now).0

  -- With neither a user nor a session the key throws, which is caught.
  unfoldable pub invalidate_cart : Conn → Option String → Option String → Conn
  unfolding key_of get_cache_key delete
  invalidate_cart c user session = elim (key_of user session) [
    | none ↦ c
    | some k ↦ (delete r c (get_cache_key k)).0
  ]

  abbrev pub format_cart_response : Db → String → Cart → CartResponse
  format_cart_response db id cart = record {
    id = id;
    cart = cart;
    item_count = length (cart_items db id);
    items = cart_items db id;
  }

  -- The answer of `getOrCreateCart` about a row, which goes into the cache.
  abbrev pub answered : Db → Conn → CartKey → String → Cart → ℕ → World × Result CartResponse
  answered db c k id cart now =
      let response = format_cart_response db id cart in
      ((db, set_cart c k response now), ok response)

  unfoldable pub get_or_create_cart :
      World → Option String → Option String → String → ℕ → World × Result CartResponse
  unfolding key_of get_cart set_cart
  get_or_create_cart (db, c) user session new_id now = elim (key_of user session) [
    | none ↦ ((db, c), err bad_request)
    | some k ↦ elim (get_cart c k now) [
      | some cached ↦ ((db, c), ok cached)
      | none ↦ elim (active_cart db k) [
        | some (id, cart) ↦ answered db c k id cart now
        | none ↦
            let cart = new_cart user session now in
            answered (create_cart db new_id cart) c k new_id cart now
      ]
    ]
  ]

  -- `new_id` and `next_id` are for carts that have to be created before and after the call's work.
  unfoldable pub add_item :
      World
      → Option String
      → Option String
      → AddToCartDto
      → String
      → String
      → String
      → ℕ
      → World × Result CartResponse
  unfolding get_or_create_cart add_line invalidate_cart
  add_item w user session dto new_id item_id next_id now =
      let (w', found) = get_or_create_cart w user session new_id now in
      elim found [
        | err e ↦ (w', err e)
        | ok cart ↦
            let (db, done) = add_line s w'.0 cart.id dto item_id now in
            elim done [
              | err e ↦ ((db, w'.1), err e)
              | ok _ ↦
                  get_or_create_cart (db, invalidate_cart w'.1 user session) user session next_id
                    now
            ]
      ]

  -- `cache.invalidateCart(cart?.userId, cart?.sessionId)`.
  abbrev pub invalidate_of : Db → Conn → String → Conn
  invalidate_of db c id = elim (find_cart s db id) [
    | none ↦ c
    | some cart ↦ invalidate_cart c cart.user_id cart.session_id
  ]

  unfoldable pub update_item :
      World → String → String → UpdateCartItemDto → ℕ → World × Result CartResponse
  unfolding change_line invalidate_cart
  update_item (db, c) id item_id dto now =
      let (db', done) = change_line s db id item_id dto now in
      elim done [
        | err e ↦ ((db', c), err e)
        | ok _ ↦ elim (find_cart s db' id) [
          | none ↦ ((db', c), err record_missing)
          | some cart ↦ ((db', invalidate_of db' c id), ok (format_cart_response db' id cart))
        ]
      ]

  unfoldable pub remove_item : World → String → String → ℕ → World × Result (Unit {0})
  unfolding remove_line invalidate_cart
  remove_item (db, c) id item_id now =
      let (db', done) = remove_line s db id item_id now in
      elim done [ err e ↦ ((db', c), err e) | ok _ ↦ ((db', invalidate_of db' c id), ok tt) ]

  unfoldable pub clear_cart : World → String → ℕ → World × Result (Unit {0})
  unfolding clear_lines invalidate_cart
  clear_cart (db, c) id now =
      let (db', done) = clear_lines s db id now in
      elim done [ err e ↦ ((db', c), err e) | ok _ ↦ ((db', invalidate_of db' c id), ok tt) ]

  -- Without a user and without a session the query takes any active cart: the key must be there.
  unfoldable pub get_cart_summary : Db → CartKey → CartSummary
  get_cart_summary db k = elim (active_cart db k) [
    | none ↦ record { item_count = 0; total = pos 0; has_unavailable_items = false }
    | some (id, cart) ↦ record {
      item_count = length (cart_items db id);
      total = cart.total;
      has_unavailable_items = some_unavailable (cart_items db id);
    }
  ]

  -- `estimateShipping`, with the default method.
  unfoldable pub estimate_cart_shipping : Db → String → ShippingAddress → Result ShippingCalculation
  unfolding with_products total_weight estimate_shipping
  estimate_cart_shipping db id a = elim (find_cart s db id) [
    | none ↦ err not_found
    | some _ ↦ elim (with_products s db (cart_items db id)) [
      | none ↦ err record_missing
      | some is ↦ elim (estimate_shipping (total_weight is) a standard) [
        | none ↦ err record_missing
        | some calculation ↦ ok calculation
      ]
    ]
  ]

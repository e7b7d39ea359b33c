-- ===== src/Lib.antt =====
-- MASH backend: what its services promise, proved of models of their code.
--
-- The backend is a NestJS application. This library models the parts of it that carry state and decisions
-- of their own, from the TypeScript sources (paths are from the root of the repository):
--
-- - Gateway/Balancer: src/modules/gateway/services/load-balancer.service.ts. `LoadBalancer` is the
--   service's two maps; `get_next_instance`, `register_instance`, `update_instance_health`,
--   `increment_connections` and `decrement_connections` are its methods, and the five strategies are
--   functions of their own. Safety, Turns, Choice, Address and Registry are about them.
-- - Gateway/Breaker: src/modules/gateway/services/circuit-breaker.service.ts. `Row` is a row of the table
--   of breaker states; `can_execute`, `record_success`, `record_failure` and `reset` are the methods.
--   Rows is about each method, Phases about an automaton beside the rows, and Trips about runs of it.
-- - Orders: src/modules/orders/orders.service.ts. `create`, `remove`, `update_status`, `cancel`,
--   `process_payment` and `update_shipping` are the handlers that write. Stock, Placing and Cancelling
--   are about the orders and the stock, Transitions about the statuses and about
--   src/common/validators/is-valid-order-status.validator.ts, which has a transition table of its own.
--   Reads has the handlers that read one order. Placed says what order a request asks for, Paying is
--   about payments and Deleted about what follows a deletion.
-- - Cart: src/modules/cart. Totals has what the handlers of cart.service.ts do in the database, Cache the
--   handlers themselves with cart-cache.service.ts around them, Merging the merge of a guest's cart, and
--   Shipping shipping.service.ts. Checkout has the order made of a cart, `createOrderFromCart` of
--   src/modules/orders/orders.service.ts and `checkout` of cart.controller.ts. Balance, Limits and the
--   modules below Merging, Shipping and Checkout are about them.
-- - Inventory: src/modules/inventory/inventory.service.ts, the items in memory. Calls has what every call
--   keeps, and Restore the way back of a deleted item.
-- - RequestQueue: src/modules/request-queue/request-queue.service.ts. Requests has the handlers that
--   create and decide requests, Rows the rows that they write. Decisions is about an approval, Runs, Kept and Roles about sequences of
--   calls, and Bulk about the bulk calls.
-- - SellerVerification: src/modules/seller-verification/seller-verification.service.ts, over the same table
--   of requests with the fields of its JSON columns. Documents has the calls that change an application,
--   Status and Timeline the answers. Reviews, Effects, Flagged, Agreement and the modules below Timeline are
--   about them.
-- - WebSocket: src/modules/websocket/services/connection-manager.service.ts. `ConnectionManager` is the
--   service's maps and counters; Maps and Agreement are about the agreement of the maps.
-- - RateLimit: src/modules/gateway/rate-limiting/strategies. SlidingWindow, FixedWindow and LeakyBucket
--   are the strategies of those names, each over Redis, which models src/database/redis.service.ts.
-- - Auth/Violations: src/modules/auth/services/violation-tracker.service.ts, over the same Redis. Backoff
--   is about the waits, History about what a row of violations leaves in store.
-- - Auth/Quota: src/modules/auth/services/quota.service.ts and its table of limits. Answers is about the
--   requests of one day.
-- - Prelude has what the parts share: Boolean tests, lists, JavaScript maps, integers and texts.
--
-- What is outside the repository is a parameter: the tables of the Prisma client (Gateway/Table,
-- Orders/Database, Cart/Database, RequestQueue/Database, SellerVerification/Database) and the ioredis client (RateLimit/Redis,
-- RateLimit/FixedWindow, Auth/Quota), with the calendar of JavaScript (Auth/Quota), are records of
-- operations with the laws that their documentation states. The Memory and Examples modules fill them.
--
-- Numbers: amounts are whole centavos, weights are whole grams, times are milliseconds, and counts are
-- natural numbers with no bound, where JavaScript has doubles, and the leak rate is a fraction; an octet
-- of an address is an integer or NaN. Stock is an integer, since nothing in the schema keeps it from
-- falling below zero. A region is its name in upper case. `ts > now - windowMs` is written `now < ts +
-- windowMs`. The readings of the clock within one call are one value. All loops are recursions on lists,
-- so no fuel is needed. Handlers run one at a time: two requests that interleave at an `await` are not
-- modelled.
--
-- Not modelled: logging, metrics and traces; the reads that only shape an answer; the routing and
-- validation decorators of NestJS; the other rate limiting strategies, and the rest of authentication.
pub mod Prelude
pub mod Cart
pub mod Gateway
pub mod Orders
pub mod RequestQueue
pub mod SellerVerification
pub mod RateLimit
pub mod Auth
pub mod Inventory
pub mod WebSocket

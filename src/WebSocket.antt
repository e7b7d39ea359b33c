-- ===== src/WebSocket.antt =====
-- src/modules/websocket/services/connection-manager.service.ts: the open sockets, the sockets of each
-- user, and what is known of each. A method that changes `this` returns the new record; `now` is the
-- clock's value. A `Set` is a list without repetitions.
use mash_backend.Prelude.{
  ℕ, ◌+◌, ◌<◌, ◌==◌, String, Bool, true, false, not, ◌&&◌, ◌||◌, Option, none, some, List, [], ◌∷◌,
  ◌++◌, if◌then◌else◌, ◌===◌, string_eq, ltb, length, keep, Map, get, put, values,
}
use mash_backend.Prelude
pub mod Maps
pub mod Agreement
mod Examples

-- `AuthenticatedSocket`, as far as the manager reads it.
pub record AuthenticatedSocket : Type 0 where
  pub id : String
  pub user_id : String
  pub last_activity : Option ℕ
  pub user_agent : Option String
  pub address : String

pub record ConnectionInfo : Type 0 where
  pub socket_id : String
  pub user_id : String
  pub connected_at : ℕ
  pub last_activity : ℕ
  pub rooms : List String
  pub user_agent : Option String
  pub ip_address : String

pub record ConnectionManager : Type 0 where
  pub connections : Map String AuthenticatedSocket
  pub user_connections : Map String (List String)
  pub connection_info : Map String ConnectionInfo
  pub message_count : ℕ
  pub error_count : ℕ
  pub last_message_time : ℕ

-- The operations of a `Set` and of an array of texts.
unfoldable pub member : String → List String → Bool
member k [] = false
member k (j ∷ ks) = j === k || member k ks

unfoldable pub add : String → List String → List String
unfolding member
add k ks = if member k ks then ks else ks ++ (k ∷ [])

unfoldable pub drop : String → List String → List String
drop k ks = keep (λ j. not (j === k)) ks

abbrev pub or_empty : Option (List String) → List String
or_empty none = []
or_empty (some ks) = ks

abbrev pub new_info : AuthenticatedSocket → ℕ → ConnectionInfo
new_info s now = record {
  socket_id = s.id;
  user_id = s.user_id;
  connected_at = now;
  last_activity = now;
  rooms = [];
  user_agent = s.user_agent;
  ip_address = s.address;
}

unfoldable pub add_connection : ConnectionManager → AuthenticatedSocket → ℕ → ConnectionManager
unfolding add
add_connection m s now = record m {
  connections = put s.id s m.connections;
  user_connections =
      put s.user_id (add s.id (or_empty (get s.user_id m.user_connections))) m.user_connections;
  connection_info = put s.id (new_info s now) m.connection_info;
}

-- A user's sockets without one of them. A user without sockets is dropped.
unfoldable pub without_socket :
    String → String → Map String (List String) → Map String (List String)
unfolding drop
without_socket user_id socket_id users = elim (get user_id users) [
  | none ↦ users
  | some ids ↦
      let left = drop socket_id ids in
      if length left == 0 then Prelude.remove user_id users else put user_id left users
]

unfoldable pub remove_connection : ConnectionManager → String → ConnectionManager
unfolding without_socket
remove_connection m socket_id = elim (get socket_id m.connections) [
  | none ↦ m
  | some s ↦ record m {
    connections = Prelude.remove socket_id m.connections;
    user_connections = without_socket s.user_id socket_id m.user_connections;
    connection_info = Prelude.remove socket_id m.connection_info;
  }
]

-- `Array.from(ids).map(id => connections.get(id)).filter(defined)`.
unfoldable pub sockets_of : Map String AuthenticatedSocket → List String → List AuthenticatedSocket
sockets_of m [] = []
sockets_of m (k ∷ ks) =
    let rest = sockets_of m ks in elim (get k m) [ none ↦ rest | some s ↦ s ∷ rest ]

unfoldable pub get_user_connections : ConnectionManager → String → List AuthenticatedSocket
unfolding sockets_of
get_user_connections m user_id =
    sockets_of m.connections (or_empty (get user_id m.user_connections))

-- Assigning to the fields of the object under a key, where there is one.
unfoldable pub assign : {V : Type 0} → String → (V → V) → Map String V → Map String V
assign k f m = elim (get k m) [ none ↦ m | some v ↦ put k (f v) m ]

unfoldable pub update_activity : ConnectionManager → String → ℕ → ConnectionManager
unfolding assign
update_activity m socket_id now = record m {
  connections = assign socket_id (λ s. record s { last_activity = some now }) m.connections;
  connection_info = assign socket_id (λ i. record i { last_activity = now }) m.connection_info;
}

unfoldable pub add_room : ConnectionManager → String → String → ConnectionManager
unfolding assign add
add_room m socket_id room = record m {
  connection_info = assign socket_id (λ i. record i { rooms = add room i.rooms }) m.connection_info;
}

unfoldable pub remove_room : ConnectionManager → String → String → ConnectionManager
unfolding assign drop
remove_room m socket_id room = record m {
  connection_info =
      assign socket_id (λ i. record i { rooms = drop room i.rooms }) m.connection_info;
}

unfoldable pub track_message : ConnectionManager → Bool → ℕ → ConnectionManager
track_message m success now = record m {
  message_count = m.message_count + 1;
  error_count = if success then m.error_count else m.error_count + 1;
  last_message_time = now;
}

unfoldable pub reset_stats : ConnectionManager → ℕ → ConnectionManager
reset_stats m now = record m { message_count = 0; error_count = 0; last_message_time = now }

-- `now - (socket.lastActivity || now) > timeoutMs`.
abbrev pub is_idle : ℕ → ℕ → Option ℕ → Bool
is_idle timeout now none = false
is_idle timeout now (some t) = if t == 0 then false else ltb (t + timeout) now

-- The loop of `cleanupInactiveConnections`, over the entries that the map had at its start. Closing the
-- socket is left out: it makes the gateway remove the connection, which is removed here.
unfoldable pub cleanup :
    ℕ → ℕ → ConnectionManager → List (String × AuthenticatedSocket) → ConnectionManager × ℕ
unfolding remove_connection
cleanup timeout now m [] = (m, 0)
cleanup timeout now m ((k, s) ∷ es) =
    let idle = is_idle timeout now s.last_activity in
    let (m', removed) = cleanup timeout now (if idle then remove_connection m k else m) es in
    (m', if idle then removed + 1 else removed)

unfoldable pub cleanup_inactive_connections : ConnectionManager → ℕ → ℕ → ConnectionManager × ℕ
unfolding cleanup
cleanup_inactive_connections m timeout now = cleanup timeout now m m.connections

abbrev pub not_empty : Option (List String) → Bool
not_empty none = false
not_empty (some ks) = ltb 0 (length ks)

unfoldable pub is_user_connected : ConnectionManager → String → Bool
is_user_connected m user_id = not_empty (get user_id m.user_connections)

abbrev pub get_active_connections : ConnectionManager → ℕ
get_active_connections m = length m.connections

abbrev pub get_active_users : ConnectionManager → ℕ
get_active_users m = length m.user_connections

abbrev pub get_connection : ConnectionManager → String → Option AuthenticatedSocket
get_connection m socket_id = get socket_id m.connections

abbrev pub get_all_connections : ConnectionManager → List AuthenticatedSocket
get_all_connections m = values m.connections

abbrev pub get_all_connection_info : ConnectionManager → List ConnectionInfo
get_all_connection_info m = values m.connection_info

abbrev pub get_connection_info : ConnectionManager → String → Option ConnectionInfo
get_connection_info m socket_id = get socket_id m.connection_info

-- The set of all rooms, built room by room.
unfoldable pub add_all : List String → List String → List String
unfolding add
add_all [] seen = seen
add_all (room ∷ rooms) seen = add_all rooms (add room seen)

unfoldable pub rooms_of : List ConnectionInfo → List String → List String
unfolding add_all
rooms_of [] seen = seen
rooms_of (i ∷ is) seen = rooms_of is (add_all i.rooms seen)

unfoldable pub get_total_rooms : ConnectionManager → ℕ
unfolding rooms_of
get_total_rooms m = length (rooms_of (values m.connection_info) [])

-- ===== src/WebSocket/Examples.antt =====
-- The theorems about the connection manager at concrete inputs.
use mash_backend.Prelude.{refl, none, [], get, string_eq}
use mash_backend.WebSocket.{AuthenticatedSocket, ConnectionManager, member}
use mash_backend.WebSocket.Maps.{IsValid}
use mash_backend.WebSocket.Agreement.{handle, to_add, handle-IsValid}

abbrev started : ConnectionManager
started = record {
  connections = [];
  user_connections = [];
  connection_info = [];
  message_count = 0;
  error_count = 0;
  last_message_time = 0;
}

abbrev phone : AuthenticatedSocket
phone = record {
  id = "s1";
  user_id = "ana";
  last_activity = none;
  user_agent = none;
  address = "::1";
}

started-IsValid : IsValid started
unfolding get member
started-IsValid = record { sets = λ k u. refl; full = λ u e. cc }

abbrev one_socket : ConnectionManager
one_socket = handle started (to_add phone 7)

handle-IsValid_example : IsValid one_socket
unfolding get
handle-IsValid_example = handle-IsValid started (to_add phone 7) refl started-IsValid
